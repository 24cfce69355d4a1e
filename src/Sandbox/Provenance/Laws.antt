-- ===== src/Sandbox/Provenance/Laws.antt =====
-- What the audit of a probe's output accepts, exactly; and a kind of install location that it
-- accepts although it lies beside the workspace.
use bmk_dev.Base.{
  Bool, true, false, ◌||◌, not, Option, none, some, List, [], ◌∷◌, ◌++◌, list_eq, nat_eq, any, keep,
  ◌≡◌, refl, ◌∙◌, ◌⊎◌, ◌↔◌, inl, inr, arith, Bool-cases, Option-cases, ap,
}
use bmk_dev.Base.Text.{Text, codes, strip, first_line, after_first, is_empty}
use bmk_dev.Sandbox.Provenance.{Row, Bad, is_inside, is_workspace_url, bad_of, bad_rows, judge}

-- The module was imported, and from the workspace: by one of its paths, or by its install URL.
abbrev pub IsResolved : Row → Type 0
IsResolved row =
    (elim row.error [ none ↦ true | some e ↦ is_empty e ] ≡ true)
    × ((any is_inside row.paths ≡ true) ⊎ (any is_workspace_url row.direct_urls ≡ true))

abbrev pub AllResolved : List Row → Type 0
AllResolved [] = Unit
AllResolved (row ∷ rows) = IsResolved row × AllResolved rows

any_inside-keep :
    (paths : List Text) → any is_inside (keep (λ p. not (is_empty p)) paths) ≡ any is_inside paths
any_inside-keep [] = refl
any_inside-keep ([] ∷ paths) = any_inside-keep paths ∙ ground arith
any_inside-keep ((c ∷ p) ∷ paths) =
    ap (λ (b : Bool). is_inside (c ∷ p) || b) (any_inside-keep paths)

append-eq_nil : (xs : List Bad) {ys : List Bad} → xs ++ ys ≡ [] → (xs ≡ []) × (ys ≡ [])
append-eq_nil [] h = (refl, h)
append-eq_nil (x ∷ xs) h = cc

bad_of-nil : (row : Row) → (bad_of row ≡ []) ↔ IsResolved row
unfolding bad_of
bad_of-nil row = ground (arith, any_inside-keep row.paths)

bad_rows-nil : (rows : List Row) → (bad_rows rows ≡ []) ↔ AllResolved rows
unfolding bad_rows
bad_rows-nil [] = (λ h. tt, λ h. refl)
bad_rows-nil (row ∷ rows) = (
  λ h.
      let (left, right) = append-eq_nil (bad_of row) h in
      ((bad_of-nil row).0 left, (bad_rows-nil rows).0 right),
  λ h. rw ((bad_of-nil row).1 h.0) ((bad_rows-nil rows).1 h.1),
)

-- The rows that a probe printed, as `json.loads` gives them.
abbrev pub Decodes : (Text → Option (List Row)) → Text → List Row → Type 0
Decodes loads output rows =
    (rest : Text) × (after_first (codes "__PROVENANCE__") output ≡ some rest)
    × (is_empty (strip rest) ≡ false)
    × (loads (first_line (strip rest)) ≡ some rows)

module _ (loads : Text → Option (List Row)) (output : Text) where
  -- The audit of an output passes exactly when the probe printed rows that can be decoded and each
  -- of these modules was imported without an error, from a path in the workspace or with an
  -- install URL that begins with the workspace's.
  pub judge-accepts :
      (judge loads output ≡ none)
      ↔ ((rows : List Row) × Decodes loads output rows × AllResolved rows)
  unfolding judge
  judge-accepts = (
    λ h. elim (Option-cases (after_first (codes "__PROVENANCE__") output)) [
      | inl absent ↦ absurd (ground (arith))
      | inr (rest, found) ↦ elim (Bool-cases (is_empty (strip rest))) [
        | inl blank ↦ absurd (ground (arith))
        | inr text ↦ elim (Option-cases (loads (first_line (strip rest)))) [
          | inl invalid ↦ absurd (ground (arith))
          | inr (rows, decoded) ↦
              (rows, (rest, found, text, decoded), (bad_rows-nil rows).0 (ground (arith)))
        ]
      ]
    ],
    λ (rows, (rest, found, text, decoded), good). ground (arith, (bad_rows-nil rows).1 good),
  )
