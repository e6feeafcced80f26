-- ===== src/Util/Text.antt =====
-- What the program uses of Go's `strings` package, `fmt.Sprintf` and slice expressions, over texts.
use Prim.Native.Char.{Char, code}
use Prim.Native.String
use text.Mathlib.TextLemmas.{nil-append, cons-append}
use text.Mathlib.TextLemmas
use text.Mathlib.TextEquality.{Char-path}
use mock_server.Prelude.{
  ℕ, ◌-◌, ◌≡◌, refl, sym, ap, ◌∙◌, String, true, ◌&&◌, List, [], ◌∷◌, ◌++◌, Option, none, some,
  arith, leb, nat_eq, length, drop, take, ◌==◌, if◌then◌else◌, Bool-cases, inl, inr,
}

infixr 65 ◌^◌
-- Concatenation of texts.
abbrev pub ◌^◌ : String → String → String
s ^ t = String.◌++◌ s t

-- `strings.Join`
unfoldable pub join : String → List String → String
join sep [] = ""
join sep (s ∷ []) = s
join sep (s ∷ t ∷ ts) = s ^ sep ^ join sep (t ∷ ts)

abbrev grow : Char → List String → List String
grow c [] = String.◌∷◌ c "" ∷ []
grow c (l ∷ ls) = String.◌∷◌ c l ∷ ls

-- `strings.Split(s, "\n")`
unfoldable pub split_lines : String → List String
split_lines String.[] = "" ∷ []
split_lines (String.◌∷◌ c s) =
    let rest = split_lines s in if nat_eq (code c) b'\n' then "" ∷ rest else grow c rest

-- `l[lo:hi]`, which panics out of range; the capacity of the slices here is their length.
unfoldable pub slice : ℕ → ℕ → List String → Option (List String)
slice lo hi l = if leb lo hi && leb hi (length l) then some (take (hi - lo) (drop lo l)) else none

-- `filepath.Join` on elements without "." and "..": the empty ones are left out.
unfoldable pub join_path : List String → String
join_path [] = ""
join_path (p ∷ []) = p
join_path (p ∷ q ∷ ps) =
    let rest = join_path (q ∷ ps) in
    if p == "" then rest else if rest == "" then p else p ^ "/" ^ rest

split_lines_cons : (s : String) → (l : String) × (ls : List String) × (split_lines s ≡ l ∷ ls)
unfolding split_lines
split_lines_cons String.[] = ("", [], refl)
split_lines_cons (String.◌∷◌ c s) =
    let (l, ls, e) = split_lines_cons s in
    elim (Bool-cases (nat_eq (code c) b'\n')) [
      | inl n ↦ ("", split_lines s, rw n refl)
      | inr n ↦ (String.◌∷◌ c l, ls, rw (n, e) refl)
    ]

newline-append : (b : String) → "\n" ^ b ≡ String.◌∷◌ "\n" b
newline-append b = cons-append "\n" "" b ∙ ap (String.◌∷◌ "\n") (nil-append b)

-- A newline separates.
pub split_lines-newline :
    (a b : String) → split_lines (a ^ "\n" ^ b) ≡ split_lines a ++ split_lines b
unfolding split_lines
split_lines-newline String.[] b = rw (nil-append ("\n" ^ b), newline-append b)
split_lines-newline (String.◌∷◌ c a) b =
    let (l, ls, e) = split_lines_cons a in
    let ih = split_lines-newline a b in
    rw (cons-append c a ("\n" ^ b)) (elim (Bool-cases (nat_eq (code c) b'\n')) [
      | inl n ↦ rw (n, ih) refl
      | inr n ↦ rw (n, ih, e) refl
    ])

-- Joining once more where the last line is empty adds a newline.
pub join-end :
    (l : String) (ls : List String) → join "\n" (l ∷ ls ++ "" ∷ []) ≡ join "\n" (l ∷ ls) ^ "\n"
unfolding join
join-end l [] = ap (◌^◌ l) (TextLemmas.append-nil "\n")
join-end l (t ∷ ts) =
    ap (λ u. l ^ "\n" ^ u) (join-end t ts)
    ∙ ap (◌^◌ l) (sym (TextLemmas.append_assoc "\n" (join "\n" (t ∷ ts)) "\n"))
    ∙ sym (TextLemmas.append_assoc l ("\n" ^ join "\n" (t ∷ ts)) "\n")

join-grow :
    (c : Char) (l : String) (ls : List String)
    → join "\n" (String.◌∷◌ c l ∷ ls) ≡ String.◌∷◌ c (join "\n" (l ∷ ls))
unfolding join
join-grow c l [] = refl
join-grow c l (t ∷ ts) = cons-append c l ("\n" ^ join "\n" (t ∷ ts))

join-newline :
    (l : String) (ls : List String) → join "\n" ("" ∷ l ∷ ls) ≡ String.◌∷◌ "\n" (join "\n" (l ∷ ls))
unfolding join
join-newline l ls = nil-append ("\n" ^ join "\n" (l ∷ ls)) ∙ newline-append (join "\n" (l ∷ ls))

newline_of_code : (c : Char) → nat_eq (code c) b'\n' ≡ true → c ≡ "\n"
newline_of_code c n = Char-path c "\n" (ground arith)

-- Splitting and joining again changes nothing.
pub join-split_lines : (s : String) → join "\n" (split_lines s) ≡ s
unfolding split_lines
join-split_lines String.[] = unfold join in refl
join-split_lines (String.◌∷◌ c s) =
    let (l, ls, e) = split_lines_cons s in
    let ih = join-split_lines s in
    elim (Bool-cases (nat_eq (code c) b'\n')) [
      | inl n ↦
          rw (n, e)
            (join-newline l ls
              ∙ ap (String.◌∷◌ "\n") (rw e at ih)
              ∙ ap (λ d. String.◌∷◌ d s) (sym (newline_of_code c n)))
      | inr n ↦ rw (n, e) (join-grow c l ls ∙ ap (String.◌∷◌ c) (rw e at ih))
    ]

pub join-split_lines_end : (s : String) → join "\n" (split_lines s ++ "" ∷ []) ≡ s ^ "\n"
join-split_lines_end s =
    let (l, ls, e) = split_lines_cons s in
    rw e (join-end l ls ∙ ap (λ t. t ^ "\n") (rw e at (join-split_lines s)))
