-- ===== src/Core/Metadata/Kept.antt =====
-- A second run keeps the labels of the first.
use bmk_dev.Base.{
  true, Option, none, some, List, [], ◌∷◌, contains, list_eq, nat_eq, option_eq, ◌==◌, ◌≡◌, refl,
  sym, ◌∙◌, arith, inl, inr, Bool-cases, Option-cases, ==-cases, ==-self,
}
use mathlib.Core.Path.{subst}
use mathlib.Core.Option.{some-injective, none-ne-some}
use bmk_dev.Base.Text.{Text, codes}
use bmk_dev.Base.Dict.{Dict, lookup, insert, lookup-insert}
use bmk_dev.Base.Json.{Json, object}
use bmk_dev.Core.Metadata.{
  Library, Packet, inferred_integration_layer, java_layer, layer_of, integration_loop, taxonomy_of,
  taxonomy, fields_of, integration_key, atomic_key, test_names,
}
use bmk_dev.Core.Metadata.Taxonomy.{
  is_integration, layer_if-is_integration, HasLayers, insert-HasLayers, layer_of-kept,
  layer_of-is_integration, atomic_loop-HasLayers,
}

module _ (L : Library) where
  module _ (previous : Json L.Number) (key_of guess : Text → Text) where
    integration_loop-HasLayers :
        ((name : Text) → is_integration (guess name) ≡ true)
        → (names : List Text) (d final : Dict Text Text) → HasLayers d
        → integration_loop L previous key_of guess names d ≡ some final
        → HasLayers final
    unfolding integration_loop
    integration_loop-HasLayers g [] d final hs h =
        subst (λ (t : Dict Text Text). HasLayers t) (some-injective d final h) hs
    integration_loop-HasLayers g (name ∷ names) d final hs h =
        elim (Option-cases (layer_of L previous (key_of name) (guess name))) [
          | inl n ↦ absurd (none-ne-some final (sym (rw (integration_loop, n) refl) ∙ h))
          | inr (layer, e) ↦
              let next = insert (key_of name) layer d in
              let t : is_integration layer ≡ true =
                layer_of-is_integration L previous (key_of name) (guess name) layer (g name) e in
              integration_loop-HasLayers g names next final
                (insert-HasLayers (key_of name) layer d (ground arith) hs)
                (sym (rw (integration_loop, e) refl) ∙ h)
        ]

    module _ (injective : (m n : Text) → key_of m ≡ key_of n → m ≡ n) where
      -- A label that is set is not changed by what follows.
      integration_loop-keeps :
          (name layer : Text) (names : List Text) (d final : Dict Text Text)
          → layer_of L previous (key_of name) (guess name) ≡ some layer
          → lookup (key_of name) d ≡ some layer
          → integration_loop L previous key_of guess names d ≡ some final
          → lookup (key_of name) final ≡ some layer
      unfolding integration_loop
      integration_loop-keeps name layer [] d final e found h =
          subst (λ (t : Dict Text Text). lookup (key_of name) t ≡ some layer)
            (some-injective d final h) found
      integration_loop-keeps name layer (m ∷ names) d final e found h =
          elim (Option-cases (layer_of L previous (key_of m) (guess m))) [
            | inl n ↦ absurd (none-ne-some final (sym (rw (integration_loop, n) refl) ∙ h))
            | inr (l, e') ↦
                let next = insert (key_of m) l d in
                let still : lookup (key_of name) next ≡ some layer =
                  lookup-insert (key_of name) (key_of m) l d
                  ∙ elim (==-cases (key_of name) (key_of m)) [
                    | inl (t, same) ↦
                        let renamed = injective name m same in
                        rw t (
                          sym e'
                          ∙ subst
                              (λ (n : Text). layer_of L previous (key_of n) (guess n) ≡ some layer)
                              renamed e)
                    | inr (f, differ) ↦ rw f found
                  ] in
                integration_loop-keeps name layer names next final e still
                  (sym (rw (integration_loop, e') refl) ∙ h)
          ]

      pub integration_loop-labels :
          (name : Text) (names : List Text) (d final : Dict Text Text)
          → contains names name ≡ true
          → integration_loop L previous key_of guess names d ≡ some final
          → (layer : Text) × (layer_of L previous (key_of name) (guess name) ≡ some layer)
            × (lookup (key_of name) final ≡ some layer)
      unfolding integration_loop
      integration_loop-labels name [] d final c h = absurd cc
      integration_loop-labels name (m ∷ names) d final c h =
          elim (Option-cases (layer_of L previous (key_of m) (guess m))) [
            | inl n ↦ absurd (none-ne-some final (sym (rw (integration_loop, n) refl) ∙ h))
            | inr (l, e) ↦
                let next = insert (key_of m) l d in
                let rest : integration_loop L previous key_of guess names next ≡ some final =
                  sym (rw (integration_loop, e) refl) ∙ h in
                elim (==-cases name m) [
                  | inl (_, same) ↦
                      let at_name : layer_of L previous (key_of name) (guess name) ≡ some l =
                        rw same e in
                      let set : lookup (key_of name) next ≡ some l =
                        lookup-insert (key_of name) (key_of m) l d
                        ∙ rw (same, ==-self (key_of m)) refl in
                      (l, at_name, integration_loop-keeps name l names next final at_name set rest)
                  | inr (f, differ) ↦
                      integration_loop-labels name names next final (ground arith) rest
                ]
          ]

  module _ (before after : Json L.Number) (key_of guess : Text → Text) where
    integration_loop-same :
        (names : List Text) (d : Dict Text Text)
        → ((name : Text)
            → contains names name ≡ true
            → layer_of L after (key_of name) (guess name)
              ≡ layer_of L before (key_of name) (guess name))
        → integration_loop L after key_of guess names d
          ≡ integration_loop L before key_of guess names d
    unfolding integration_loop
    integration_loop-same [] d h = refl
    integration_loop-same (name ∷ names) d h =
        let here = h name (rw (==-self name) refl) in
        let later : (m : Text)
            → contains names m ≡ true
            → layer_of L after (key_of m) (guess m) ≡ layer_of L before (key_of m) (guess m) =
          λ m c. h m (ground arith) in
        elim (Option-cases (layer_of L before (key_of name) (guess name))) [
          | inl n ↦ rw (integration_loop, here, n) refl
          | inr (layer, e) ↦
              rw (integration_loop, here, e)
                (integration_loop-same names (insert (key_of name) layer d) later)
        ]

  module _ (previous : Json L.Number) (key_of guess : Text → Text)
      (g : (name : Text) → is_integration (guess name) ≡ true) where
    pub taxonomy_of-HasLayers :
        (atomic integration : Option (List Text)) (atomic_key : Text → Text)
        (final : Dict Text Text)
        → taxonomy_of L previous key_of guess atomic integration atomic_key ≡ some final
        → HasLayers final
    unfolding taxonomy_of
    taxonomy_of-HasLayers (some atomic) (some integration) atomic_key final h =
        integration_loop-HasLayers previous key_of guess g integration _ final
          (atomic_loop-HasLayers atomic_key atomic [] tt) h
    taxonomy_of-HasLayers (some atomic) none atomic_key final h = absurd (none-ne-some final h)
    taxonomy_of-HasLayers none (some _) atomic_key final h = absurd (none-ne-some final h)
    taxonomy_of-HasLayers none none atomic_key final h = absurd (none-ne-some final h)

    pub taxonomy_of-again :
        ((m n : Text) → key_of m ≡ key_of n → m ≡ n)
        → (atomic integration : Option (List Text)) (atomic_key : Text → Text)
          (final : Dict Text Text)
        → taxonomy_of L previous key_of guess atomic integration atomic_key ≡ some final
        → taxonomy_of L (object (fields_of L final)) key_of guess atomic integration atomic_key
          ≡ some final
    unfolding taxonomy_of
    taxonomy_of-again injective (some atomic) (some integration) atomic_key final h =
        let kept : (name : Text)
            → contains integration name ≡ true
            → layer_of L (object (fields_of L final)) (key_of name) (guess name)
              ≡ layer_of L previous (key_of name) (guess name) =
          λ name c.
            let (layer, e, found) =
              integration_loop-labels previous key_of guess injective name integration _ final c
                h in
            layer_of-kept L (key_of name) (guess name) layer final found
              (layer_of-is_integration L previous (key_of name) (guess name) layer (g name) e)
            ∙ sym e in
        integration_loop-same previous (object (fields_of L final)) key_of guess integration _ kept
        ∙ h
    taxonomy_of-again injective (some atomic) none atomic_key final h =
        absurd (none-ne-some final h)
    taxonomy_of-again injective none (some _) atomic_key final h = absurd (none-ne-some final h)
    taxonomy_of-again injective none none atomic_key final h = absurd (none-ne-some final h)

  pub integration_key-injective : (m n : Text) → integration_key m ≡ integration_key n → m ≡ n
  integration_key-injective m n h = cc

  module _ {Host : Type 0} (packet : Packet Host) (language : Text) (previous : Json L.Number) where
    abbrev java_suite : Text → Option (List Text)
    java_suite suite = some (packet.java_runner.discover packet.oracle suite)

    abbrev python_suite : Text → Option (List Text)
    python_suite file = test_names (packet.test_file file)

    pub taxonomy-HasLayers :
        (final : Dict Text Text)
        → taxonomy L packet language previous ≡ some final
        → HasLayers final
    unfolding taxonomy
    taxonomy-HasLayers final h = elim (Bool-cases (language == codes "java")) [
      | inl java ↦
          taxonomy_of-HasLayers previous (λ id. id) java_layer (λ id. layer_if-is_integration _)
            (java_suite (codes "atomic")) (java_suite (codes "integration")) (λ id. id) final
            (sym (rw (taxonomy, java) refl) ∙ h)
      | inr python ↦
          taxonomy_of-HasLayers previous integration_key inferred_integration_layer
            (λ name. layer_if-is_integration _) (python_suite (codes "test_atomic.py"))
            (python_suite (codes "test_integration.py")) atomic_key final
            (sym (rw (taxonomy, python) refl) ∙ h)
    ]

    pub taxonomy-again :
        (final : Dict Text Text)
        → taxonomy L packet language previous ≡ some final
        → taxonomy L packet language (object (fields_of L final)) ≡ some final
    unfolding taxonomy
    taxonomy-again final h = elim (Bool-cases (language == codes "java")) [
      | inl java ↦
          rw (taxonomy, java)
            (taxonomy_of-again previous (λ id. id) java_layer (λ id. layer_if-is_integration _)
              (λ m n e. e) (java_suite (codes "atomic")) (java_suite (codes "integration"))
              (λ id. id) final (sym (rw (taxonomy, java) refl) ∙ h))
      | inr python ↦
          rw (taxonomy, python)
            (taxonomy_of-again previous integration_key inferred_integration_layer
              (λ name. layer_if-is_integration _) integration_key-injective
              (python_suite (codes "test_atomic.py")) (python_suite (codes "test_integration.py"))
              atomic_key final (sym (rw (taxonomy, python) refl) ∙ h))
    ]
