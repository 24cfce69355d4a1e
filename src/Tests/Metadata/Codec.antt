-- ===== src/Tests/Metadata/Codec.antt =====
-- A reader and a writer of values, in a notation by prefixes: a concrete `json`.
use bmk_dev.Base.{
  ℕ, zero, suc, ◌≤◌, Bool, true, false, Option, none, some, [], ◌∷◌, ◌++◌, take, drop, length,
  length-append, ◌≡◌, refl, sym, ◌∙◌, arith, ap, eqb,
}
use mathlib.Core.Path.{subst}
use mathlib.Core.List.{append_assoc, append-nil}
use mathlib.Core.Option.{some-injective, none-ne-some, some-ne-none}
use bmk_dev.Base.Text.{Text, strip_prefix}
use bmk_dev.Base.Json.{
  Json, null, boolean, number, string, array, object, Values, no_values, value, Fields, no_fields,
  field, get_field, IsDecoded, AreDecoded, HasFields,
}
use bmk_dev.Core.Metadata.{Library}
use bmk_dev.Core.Metadata.Main.{byte_order_mark}
use bmk_dev.Core.Metadata.Fresh.{Codec}

abbrev pub of_Bool : Bool → ℕ
of_Bool true = 1
of_Bool false = 0

unfoldable mutual
  pub write : Json ℕ → Text
  write null = 0 ∷ []
  write (boolean b) = 1 ∷ of_Bool b ∷ []
  write (number n) = 2 ∷ n ∷ []
  write (string s) = 3 ∷ length s ∷ s
  write (array xs) = 4 ∷ write_values xs
  write (object f) = 5 ∷ write_fields f

  write_values : Values ℕ → Text
  write_values no_values = 0 ∷ []
  write_values (value x xs) = 1 ∷ write x ++ write_values xs

  write_fields : Fields ℕ → Text
  write_fields no_fields = 0 ∷ []
  write_fields (field k v more) = 1 ∷ length k ∷ k ++ (write v ++ write_fields more)

abbrev flag : ℕ → Bool
flag zero = false
flag (suc n) = true

unfoldable mutual
  pub read : ℕ → Text → Option (Json ℕ × Text)
  read (suc n) (zero ∷ s) = some (null, s)
  read (suc n) ((suc zero) ∷ b ∷ s) = some (boolean (flag b), s)
  read (suc n) ((suc (suc zero)) ∷ m ∷ s) = some (number m, s)
  read (suc n) ((suc (suc (suc zero))) ∷ m ∷ s) = some (string (take m s), drop m s)
  read (suc n) ((suc (suc (suc (suc zero)))) ∷ s) = elim (read_values n s) [
    | none ↦ none
    | some (xs, t) ↦ some (array xs, t)
  ]
  read (suc n) ((suc (suc (suc (suc (suc zero))))) ∷ s) = elim (read_fields n s) [
    | none ↦ none
    | some (f, t) ↦ some (object f, t)
  ]
  read _ _ = none

  read_values : ℕ → Text → Option (Values ℕ × Text)
  read_values (suc n) (zero ∷ s) = some (no_values, s)
  read_values (suc n) ((suc zero) ∷ s) = elim (read n s) [
    | none ↦ none
    | some (x, t) ↦ elim (read_values n t) [ none ↦ none | some (xs, u) ↦ some (value x xs, u) ]
  ]
  read_values _ _ = none

  read_fields : ℕ → Text → Option (Fields ℕ × Text)
  read_fields (suc n) (zero ∷ s) = some (no_fields, s)
  read_fields (suc n) ((suc zero) ∷ m ∷ s) = elim (read n (drop m s)) [
    | none ↦ none
    | some (v, t) ↦ elim (read_fields n t) [
      | none ↦ none
      | some (more, u) ↦ some (field (take m s) v more, u)
    ]
  ]
  read_fields _ _ = none

take-length : (s t : Text) → take (length s) (s ++ t) ≡ s
take-length [] t = refl
take-length (c ∷ s) t = ap (λ (r : Text). c ∷ r) (take-length s t)

drop-length : (s t : Text) → drop (length s) (s ++ t) ≡ t
drop-length [] t = refl
drop-length (c ∷ s) t = drop-length s t

flag-of_Bool : (b : Bool) → flag (of_Bool b) ≡ b
flag-of_Bool true = refl
flag-of_Bool false = refl

write-not_nil : (v : Json ℕ) → 1 ≤ length (write v)
unfolding write
write-not_nil null = omega arith
write-not_nil (boolean b) = omega arith
write-not_nil (number m) = omega arith
write-not_nil (string t) = omega arith
write-not_nil (array xs) = omega arith
write-not_nil (object f) = omega arith

mutual
  unfolding write read

  read-write :
      (n : ℕ) (v : Json ℕ) (s : Text) → length (write v) ≤ n → read n (write v ++ s) ≡ some (v, s)
  read-write zero v s h = absurd (omega (arith, write-not_nil v))
  read-write (suc n) null s h = refl
  read-write (suc n) (boolean b) s h = rw (flag-of_Bool b) refl
  read-write (suc n) (number m) s h = refl
  read-write (suc n) (string t) s h = rw (take-length t s, drop-length t s) refl
  read-write (suc n) (array xs) s h = rw (read-write_values n xs s (omega arith)) refl
  read-write (suc n) (object f) s h = rw (read-write_fields n f s (omega arith)) refl

  read-write_values :
      (n : ℕ) (xs : Values ℕ) (s : Text)
      → length (write_values xs) ≤ n
      → read_values n (write_values xs ++ s) ≡ some (xs, s)
  read-write_values zero no_values s h = absurd (omega arith)
  read-write_values zero (value x xs) s h = absurd (omega arith)
  read-write_values (suc n) no_values s h = refl
  read-write_values (suc n) (value x xs) s h =
      let rest = write_values xs in
      let l = length-append (write x) rest in
      rw
        (
          append_assoc (write x) rest s,
          read-write n x (rest ++ s) (omega (arith, l)),
          read-write_values n xs s (omega (arith, l)),
        )
        refl

  read-write_fields :
      (n : ℕ) (f : Fields ℕ) (s : Text)
      → length (write_fields f) ≤ n
      → read_fields n (write_fields f ++ s) ≡ some (f, s)
  read-write_fields zero no_fields s h = absurd (omega arith)
  read-write_fields zero (field k v more) s h = absurd (omega arith)
  read-write_fields (suc n) no_fields s h = refl
  read-write_fields (suc n) (field k v more) s h =
      let rest = write_fields more in
      let body = write v ++ rest in
      let l = length-append k body in
      let m = length-append (write v) rest in
      rw
        (
          append_assoc k body s,
          append_assoc (write v) rest s,
          drop-length k (write v ++ (rest ++ s)),
          read-write n v (rest ++ s) (omega (arith, l, m)),
          read-write_fields n more s (omega (arith, l, m)),
          append_assoc k body s,
          take-length k (body ++ s),
        )
        refl

is_none : (o : Option (Json ℕ)) → Dec (o ≡ none)
is_none none = yes refl
is_none (some v) = no (λ h. some-ne-none v h)

-- Whether each object has each key once.
mutual
  unfolding IsDecoded

  is_decoded : (v : Json ℕ) → Dec (IsDecoded ℕ v)
  is_decoded null = yes tt
  is_decoded (boolean b) = yes tt
  is_decoded (number n) = yes tt
  is_decoded (string s) = yes tt
  is_decoded (array xs) = are_decoded xs
  is_decoded (object f) = has_fields f

  are_decoded : (xs : Values ℕ) → Dec (AreDecoded ℕ xs)
  are_decoded no_values = yes tt
  are_decoded (value x xs) = elim (is_decoded x) [
    | no n ↦ no (λ h. n h.0)
    | yes d ↦ elim (are_decoded xs) [ no n ↦ no (λ h. n h.1) | yes e ↦ yes (d, e) ]
  ]

  has_fields : (f : Fields ℕ) → Dec (HasFields ℕ f)
  has_fields no_fields = yes tt
  has_fields (field k v more) = elim (is_none (get_field ℕ k more)) [
    | no n ↦ no (λ h. n h.0)
    | yes fresh ↦ elim (is_decoded v) [
      | no n ↦ no (λ h. n h.1)
      | yes d ↦ elim (has_fields more) [ no n ↦ no (λ h. n h.2) | yes e ↦ yes (fresh, d, e) ]
    ]
  ]

unfoldable pub accept : Option (Json ℕ × Text) → Option (Json ℕ)
unfolding is_decoded is_none
accept none = none
accept (some (j, rest)) = elim (is_decoded j) [ yes _ ↦ some j | no _ ↦ none ]

abbrev pub library : Library
library = record {
  Number = ℕ;
  of_ℕ = λ n. n;
  of_Bool = of_Bool;
  same = eqb;
  str = λ v. [];
  loads = λ raw. accept (read (length raw) raw);
  dumps = write;
}

accept-IsDecoded :
    (found : Option (Json ℕ × Text)) (j : Json ℕ) → accept found ≡ some j → IsDecoded ℕ j
unfolding accept is_decoded
accept-IsDecoded none j h = absurd (none-ne-some j h)
accept-IsDecoded (some (i, rest)) j h =
    elim (is_decoded i) as (λ d. elim d [ yes _ ↦ some i | no _ ↦ none ] ≡ some j → IsDecoded ℕ j) [
      | yes d ↦ λ e. subst (λ (k : Json ℕ). IsDecoded ℕ k) (some-injective i j e) d
      | no n ↦ λ e. absurd (none-ne-some j e)
    ]
      h

accept-some : (j : Json ℕ) (rest : Text) → IsDecoded ℕ j → accept (some (j, rest)) ≡ some j
unfolding accept
accept-some j rest d =
    elim (is_decoded j) as (λ c. elim c [ yes _ ↦ some j | no _ ↦ none ] ≡ some j) [
      | yes _ ↦ refl
      | no n ↦ absurd (n d)
    ]

write-read : (j : Json ℕ) → read (length (write j)) (write j) ≡ some (j, [])
write-read j =
    ap (λ (t : Text). read (length (write j)) t) (sym (append-nil (write j)))
    ∙ read-write (length (write j)) j [] (omega arith)

codec_unmarked : (f : Fields ℕ) → strip_prefix byte_order_mark (write (object f)) ≡ none
unfolding write
codec_unmarked f = refl

pub codec : Codec library
codec = record {
  reflexive = λ n. ground arith;
  decodes = λ raw j h. accept-IsDecoded (read (length raw) raw) j h;
  reads = λ j d.
      ap (λ (found : Option (Json ℕ × Text)). accept found) (write-read j) ∙ accept-some j [] d;
  unmarked = λ f. codec_unmarked f;
}
