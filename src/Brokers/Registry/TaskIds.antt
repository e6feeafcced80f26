-- ===== src/Brokers/Registry/TaskIds.antt =====
-- internal/brokers/rabbitmq.go and kafka.go, getTaskId: which tasks share an id.
use Prim.Native.Char.{Char, code}
use Prim.Native.String.{count}
use text.Mathlib.TextLemmas.{
  nil-append, cons-append, append_assoc, append_cancel_left, append_cancel_right, append_inj,
  length-append, head-eq_of_cons-eq, tail-eq_of_cons-eq,
}
use mock_server.Prelude.{◌≡◌, ◌↔◌, refl, sym, ap, ◌∙◌, String, false, nat_eq, arith}
use mock_server.Util.Text.{◌^◌}
use mock_server.Brokers.Registry.{
  Codec, Pool, kafka, rabbitmq, get_name, get_queue, get_broker, read_task_id, write_task_id,
  base_task_id,
}

-- A text without a colon.
abbrev pub IsPlain : String → Type 0
IsPlain String.[] = Unit {0}
IsPlain (String.◌∷◌ c s) = (nat_eq (code c) b':' ≡ false) × IsPlain s

colon-append : (b : String) → ":" ^ b ≡ String.◌∷◌ ":" b
colon-append b = cons-append ":" "" b ∙ ap (String.◌∷◌ ":") (nil-append b)

colon_apart :
    (c : Char) (a b b' : String)
    → nat_eq (code c) b':' ≡ false
    → String.◌∷◌ c a ^ ":" ^ b ≡ "" ^ ":" ^ b'
    → ⊥
colon_apart c a b b' p e =
    let same : c ≡ ":" =
      head-eq_of_cons-eq
        (sym (cons-append c a (":" ^ b)) ∙ e ∙ nil-append (":" ^ b') ∙ colon-append b') in
    let p' = rw same at p in cc

-- The first colon ends a text without colons.
plain-colon_inj :
    (a a' b b' : String)
    → IsPlain a
    → IsPlain a'
    → a ^ ":" ^ b ≡ a' ^ ":" ^ b'
    → (a ≡ a') × (b ≡ b')
plain-colon_inj String.[] String.[] b b' p p' e =
    (refl, append_cancel_left ":" b b' (sym (nil-append (":" ^ b)) ∙ e ∙ nil-append (":" ^ b')))
plain-colon_inj (String.◌∷◌ c a) String.[] b b' p p' e = absurd (colon_apart c a b b' p.0 e)
plain-colon_inj String.[] (String.◌∷◌ c' a') b b' p p' e =
    absurd (colon_apart c' a' b' b p'.0 (sym e))
plain-colon_inj (String.◌∷◌ c a) (String.◌∷◌ c' a') b b' p p' e =
    let shifted = sym (cons-append c a (":" ^ b)) ∙ e ∙ cons-append c' a' (":" ^ b') in
    let head = head-eq_of_cons-eq shifted in
    let (rest, same) = plain-colon_inj a a' b b' p.1 p'.1 (tail-eq_of_cons-eq shifted) in
    (ap (λ d. String.◌∷◌ d a) head ∙ ap (String.◌∷◌ c') rest, same)

-- A text that ends in ":read" does not end in ":write".
read-ne-write : (s t : String) → s ^ ":read" ≡ t ^ ":write" → ⊥
read-ne-write s t e =
    let x : String = s ^ ":rea" in
    let y : String = t ^ ":writ" in
    let shifted : x ^ "d" ≡ y ^ "e" =
      append_assoc s ":rea" "d" ∙ e ∙ sym (append_assoc t ":writ" "e") in
    let long : count x ≡ count y =
      omega (arith, sym (length-append x "d") ∙ ap count shifted ∙ length-append y "e") in
    let (_, last) = append_inj shifted long in
    let codes : code "d" ≡ code "e" = ap code (head-eq_of_cons-eq last) in omega arith

pub data Kind : Type 0 where
  reads writes : Kind

module _ (J : Codec) where
  -- The id of a pool's read or write task.
  abbrev pub task_id : Kind → Pool J → String
  task_id reads p = read_task_id J p
  task_id writes p = write_task_id J p

  get_broker-IsPlain : (p : Pool J) → IsPlain (get_broker J p)
  unfolding get_broker
  get_broker-IsPlain (kafka mp) = ground arith
  get_broker-IsPlain (rabbitmq mp) = ground arith

  abbrev pub SamePool : Pool J → Pool J → Type 0
  SamePool p p' =
      (get_broker J p ≡ get_broker J p')
      × (get_name J p ≡ get_name J p')
      × (get_queue J p ≡ get_queue J p')

  base_task_id_inj :
      (p p' : Pool J)
      → IsPlain (get_name J p)
      → IsPlain (get_name J p')
      → base_task_id (get_broker J p) (get_name J p) (get_queue J p)
        ≡ base_task_id (get_broker J p') (get_name J p') (get_queue J p')
      → SamePool p p'
  unfolding base_task_id
  base_task_id_inj p p' n n' e =
      let (broker, rest) =
        plain-colon_inj _ _ _ _ (get_broker-IsPlain p) (get_broker-IsPlain p') e in
      let (name, queue) = plain-colon_inj _ _ _ _ n n' rest in (broker, name, queue)

  task_id_inj :
      (k k' : Kind) (p p' : Pool J)
      → IsPlain (get_name J p)
      → IsPlain (get_name J p')
      → task_id k p ≡ task_id k' p'
      → (k ≡ k') × SamePool p p'
  unfolding read_task_id write_task_id
  task_id_inj reads reads p p' n n' e =
      (refl, base_task_id_inj p p' n n' (append_cancel_right _ _ ":read" e))
  task_id_inj writes writes p p' n n' e =
      (refl, base_task_id_inj p p' n n' (append_cancel_right _ _ ":write" e))
  task_id_inj reads writes p p' n n' e = absurd (read-ne-write _ _ e)
  task_id_inj writes reads p p' n n' e = absurd (read-ne-write _ _ (sym e))

  same_task_id : (k : Kind) (p p' : Pool J) → SamePool p p' → task_id k p ≡ task_id k p'
  unfolding read_task_id write_task_id
  same_task_id reads p p' (broker, name, queue) = rw (broker, name, queue) refl
  same_task_id writes p p' (broker, name, queue) = rw (broker, name, queue) refl

  -- If the names of two pools have no colon, two of their tasks have the same id exactly if both
  -- read or both write, and the pools have the same broker, name and queue.
  pub task_id-eq_iff :
      (k k' : Kind) (p p' : Pool J)
      → IsPlain (get_name J p)
      → IsPlain (get_name J p')
      → (task_id k p ≡ task_id k' p') ↔ ((k ≡ k') × SamePool p p')
  task_id-eq_iff k k' p p' n n' = (
    task_id_inj k k' p p' n n',
    λ (kinds, same). ap (λ kind. task_id kind p) kinds ∙ same_task_id k' p p' same,
  )
