-- ===== src/Util/TextPieces.antt =====
-- Slices of texts, as the loop of Write in internal/util/file_storage.go takes them. A Go string is a
-- sequence of bytes; each is a character here.
use Prim.Native.Char.{Char}
use text.Mathlib.TextLemmas
use text.Mathlib.TextLemmas.{nil-append, cons-append, append-nil}
use mock_server.Prelude.{
  ℕ, zero, suc, ◌+◌, ◌-◌, ◌≤◌, ◌≡◌, refl, ap, sym, ◌∙◌, String, ◌==◌, false, [], ◌∷◌, arith, eq_iff,
  Bool-cases, inl, inr,
}
use mock_server.Util.Text.{◌^◌, join_path}

-- `len(s)`
abbrev pub size : String → ℕ
size String.[] = 0
size (String.◌∷◌ c s) = suc (size s)

-- `s[n:]`
abbrev pub drop_text : ℕ → String → String
drop_text zero s = s
drop_text (suc n) String.[] = ""
drop_text (suc n) (String.◌∷◌ c s) = drop_text n s

-- `s[:n]`
abbrev pub take_text : ℕ → String → String
take_text zero s = ""
take_text (suc n) String.[] = ""
take_text (suc n) (String.◌∷◌ c s) = String.◌∷◌ c (take_text n s)

pub size-drop_text : (n : ℕ) (s : String) → size (drop_text n s) ≡ size s - n
size-drop_text zero s = omega arith
size-drop_text (suc n) String.[] = omega arith
size-drop_text (suc n) (String.◌∷◌ c s) = omega (arith, size-drop_text n s)

pub take_text_all : (n : ℕ) (s : String) → size s ≤ n → take_text n s ≡ s
take_text_all zero String.[] h = refl
take_text_all zero (String.◌∷◌ c s) h = absurd (omega arith)
take_text_all (suc n) String.[] h = refl
take_text_all (suc n) (String.◌∷◌ c s) h = ap (String.◌∷◌ c) (take_text_all n s (omega arith))

take_text_nil : (n : ℕ) → take_text n "" ≡ ""
take_text_nil zero = refl
take_text_nil (suc n) = refl

-- A slice, and then a slice of what is left, are a longer slice.
pub take_text-append :
    (n m : ℕ) (s : String) → take_text n s ^ take_text m (drop_text n s) ≡ take_text (n + m) s
take_text-append zero m s =
    let e : 0 + m ≡ m = omega arith in nil-append (take_text m s) ∙ sym (ap (λ k. take_text k s) e)
take_text-append (suc n) m String.[] =
    let e : suc n + m ≡ suc (n + m) = omega arith in
    nil-append (take_text m "") ∙ take_text_nil m ∙ sym (ap (λ k. take_text k "") e)
take_text-append (suc n) m (String.◌∷◌ c s) =
    let e : suc n + m ≡ suc (n + m) = omega arith in
    cons-append c (take_text n s) (take_text m (drop_text n s))
    ∙ ap (String.◌∷◌ c) (take_text-append n m s)
    ∙ sym (ap (λ k. take_text k (String.◌∷◌ c s)) e)

cons-ne-nil : (c : Char) (s : String) → (String.◌∷◌ c s == "") ≡ false
cons-ne-nil c s = elim (Bool-cases (String.◌∷◌ c s == "")) [
  | inr h ↦ h
  | inl h ↦ let e = ap size ((eq_iff (String.◌∷◌ c s) "").0 h) in absurd (omega (arith, e))
]

slash-ne-nil : (s t : String) → (s ^ "/" ^ t == "") ≡ false
slash-ne-nil String.[] t = rw (nil-append ("/" ^ t), cons-append "/" "" t) (cons-ne-nil _ _)
slash-ne-nil (String.◌∷◌ c s) t = rw (cons-append c s ("/" ^ t)) (cons-ne-nil _ _)

-- Joining in two steps.
pub join_path-join_path :
    (a b c : String) → join_path (join_path (a ∷ b ∷ []) ∷ c ∷ []) ≡ join_path (a ∷ b ∷ c ∷ [])
unfolding join_path
join_path-join_path a b c = elim (Bool-cases (a == "")) [
  | inl ha ↦ rw ha refl
  | inr ha ↦ elim (Bool-cases (b == "")) [
    | inl hb ↦ rw (ha, hb, ha) refl
    | inr hb ↦ elim (Bool-cases (c == "")) [
      | inl hc ↦ rw (ha, hb, hc, slash-ne-nil a b, hb) refl
      | inr hc ↦
          rw (ha, hb, hc, slash-ne-nil a b, slash-ne-nil b c)
            (TextLemmas.append_assoc a ("/" ^ b) ("/" ^ c)
              ∙ ap (λ t. a ^ t) (TextLemmas.append_assoc "/" b ("/" ^ c)))
    ]
  ]
]
