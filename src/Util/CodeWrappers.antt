-- ===== src/Util/CodeWrappers.antt =====
-- internal/util/code_wrappers.go: the script text around the code that a user uploads, and the JSON
-- text around its arguments.
use mock_server.Prelude.{
  ◌-◌, ◌+◌, ◌≡◌, refl, ap, ◌∙◌, String, List, [], ◌∷◌, ◌++◌, Option, some, map, ◌==◌, length, leb,
  ◌&&◌, true, if◌then◌else◌, length-append, take-append, append_assoc, arith,
}
use mock_server.Util.Text.{◌^◌, join, split_lines, slice, split_lines-newline, join-split_lines_end}
use mathlib.Core.Option
use text.Mathlib.TextLemmas

abbrev pub load_args : String
load_args = "\nimport json\nwith open(\"data.json\") as data:\n    args = json.load(data)"

abbrev pub invoke_dyn_handle : String
invoke_dyn_handle = "\nprint(func(**args))"

abbrev pub invoke_esb : String
invoke_esb = "\nprint(func(args[\"msgs\"]))"

unfoldable pub wrap_code_for_dyn_handle : String → String
wrap_code_for_dyn_handle code = load_args ^ "\n" ^ code ^ "\n" ^ invoke_dyn_handle

-- `none` where the slice expression panics.
unfoldable pub unwrap_code_for_dyn_handle : String → Option String
unwrap_code_for_dyn_handle code =
    let splitted = split_lines code in
    Option.map (join "\n") (slice 4 (length splitted - 1) splitted)

unfoldable pub wrap_code_for_esb : String → String
wrap_code_for_esb code = load_args ^ "\n" ^ code ^ "\n" ^ invoke_esb

unfoldable pub unwrap_code_for_esb : String → Option String
unwrap_code_for_esb code =
    let splitted = split_lines code in
    Option.map (join "\n") (slice 4 (length splitted - 1) splitted)

abbrev or_empty_object : String → String
or_empty_object s = if s == "" then "{}" else s

unfoldable pub wrap_args_for_dyn_handle : String → String → String
wrap_args_for_dyn_handle headers body =
    "{\"headers\": " ^ or_empty_object headers ^ ", \"body\": " ^ or_empty_object body ^ "}"

-- `fmt.Sprintf("\"%s\"", msg)`: the message is put between quotes as it is.
abbrev pub quoted : String → String
quoted msg = "\"" ^ msg ^ "\""

unfoldable pub wrap_args_for_esb : List String → String
wrap_args_for_esb msgs = "{\"msgs\":[" ^ join "," (map quoted msgs) ^ "]}\n"

-- The lines between the four lines of the prefix and the last line.
slice_middle :
    (a b c d last : String) (ls : List String)
    → slice 4 (length (a ∷ b ∷ c ∷ d ∷ ls ++ last ∷ []) - 1) (a ∷ b ∷ c ∷ d ∷ ls ++ last ∷ [])
      ≡ some ls
unfolding slice
slice_middle a b c d last ls =
    let n = length-append ls (last ∷ []) in
    let hi : length (a ∷ b ∷ c ∷ d ∷ ls ++ last ∷ []) - 1 ≡ length ls + 4 = omega (arith, n) in
    let fits : leb 4 (length ls + 4)
          && leb (length ls + 4) (length (a ∷ b ∷ c ∷ d ∷ ls ++ last ∷ []))
        ≡ true =
      ground (arith, n) in
    let less : length ls + 4 - 4 ≡ length ls = omega arith in
    rw hi (rw fits (rw less (ap some (take-append ls (last ∷ [])))))

-- What unwrapping makes of a wrapped script, for a call that begins on a line of its own.
unwrap_wrapped :
    (code call last : String)
    → split_lines call ≡ "" ∷ last ∷ []
    → let splitted = split_lines (load_args ^ "\n" ^ code ^ "\n" ^ call) in
      Option.map (join "\n") (slice 4 (length splitted - 1) splitted) ≡ some (code ^ "\n")
unfolding split_lines
unwrap_wrapped code call last e =
    rw
      (
        split_lines-newline load_args (code ^ "\n" ^ call),
        split_lines-newline code call,
        e,
        ← append_assoc (split_lines code) ("" ∷ []) (last ∷ []),
        slice_middle,
      )
      (ap some (join-split_lines_end code))

-- Unwrapping a wrapped script never panics, and gives the code that was wrapped and a newline more.
pub unwrap-wrap_code_for_dyn_handle :
    (code : String)
    → unwrap_code_for_dyn_handle (wrap_code_for_dyn_handle code) ≡ some (code ^ "\n")
unfolding unwrap_code_for_dyn_handle wrap_code_for_dyn_handle
unwrap-wrap_code_for_dyn_handle code =
    unwrap_wrapped code invoke_dyn_handle "print(func(**args))" (unfold split_lines in refl)

-- Unwrapping a wrapped mapper never panics, and gives the code that was wrapped and a newline more.
pub unwrap-wrap_code_for_esb :
    (code : String) → unwrap_code_for_esb (wrap_code_for_esb code) ≡ some (code ^ "\n")
unfolding unwrap_code_for_esb wrap_code_for_esb
unwrap-wrap_code_for_esb code =
    unwrap_wrapped code invoke_esb "print(func(args[\"msgs\"]))" (unfold split_lines in refl)

comma_split : (t : String) → "\",\"" ^ t ≡ "\"" ^ "," ^ "\"" ^ t
comma_split t =
    TextLemmas.append_assoc "\"" ",\"" t ∙ ap (◌^◌ "\"") (TextLemmas.append_assoc "," "\"" t)

quoted_splits : (a b : String) → quoted (a ^ "\",\"" ^ b) ≡ quoted a ^ "," ^ quoted b
quoted_splits a b = simp (TextLemmas.append_assoc) (ap (λ t. "\"" ^ a ^ t) (comma_split (b ^ "\"")))

-- Messages are not escaped: a message of two parts with a quote, a comma and a quote between them
-- gives the same arguments as the two parts as messages of their own.
pub wrap_args_for_esb_splits :
    (a b : String) (rest : List String)
    → wrap_args_for_esb ((a ^ "\",\"" ^ b) ∷ rest) ≡ wrap_args_for_esb (a ∷ b ∷ rest)
unfolding wrap_args_for_esb join
wrap_args_for_esb_splits a b [] = rw (quoted_splits a b) refl
wrap_args_for_esb_splits a b (c ∷ rest) = rw (quoted_splits a b) (simp TextLemmas.append_assoc)
