-- ===== src/Util/Queue/Passes.antt =====
-- internal/util/blocking_queue.go: what one pass through Put and Get does, seen as a sequence.
use mock_server.Prelude.{
  ◌≡◌, refl, sym, ap, Bool, true, false, not, ◌&&◌, if◌then◌else◌, nat_eq, List, [], ◌∷◌, ◌++◌,
  Option, none, some, length, nat_eq-suc,
}
use mock_server.Util.Queue.{
  Deque, DequeLaws, BlockingQueue, Pass, waits, returns, full_at, put, get, take_front,
}

module _ {T : Type 0} {D : Deque T} (L : DequeLaws D) where
  abbrev pub items : BlockingQueue D → List T
  items q = L.contents q.elems

  abbrev pub IsFull : BlockingQueue D → Bool → Type 0
  IsFull q b = full_at D q.max_size (length (items q)) ≡ b

  pub data PutCase (x : T) (q : BlockingQueue D) : Pass (BlockingQueue D) Bool → Type 0 where
    sleeps : q.closed ≡ false → IsFull q true → PutCase x q waits
    shut : q.closed ≡ true → PutCase x q (returns q false)
    adds :
        (q' : BlockingQueue D)
        → q.closed ≡ false
        → IsFull q false
        → items q' ≡ items q ++ x ∷ []
        → q'.max_size ≡ q.max_size
        → q'.closed ≡ q.closed
        → PutCase x q (returns q' true)

  pub data GetCase (q : BlockingQueue D) : Pass (BlockingQueue D) (Option T) → Type 0 where
    sleeps : q.closed ≡ false → items q ≡ [] → GetCase q waits
    ends : q.closed ≡ true → items q ≡ [] → GetCase q (returns q none)
    takes :
        (q' : BlockingQueue D) (x : T)
        → items q ≡ x ∷ items q'
        → q'.max_size ≡ q.max_size
        → q'.closed ≡ q.closed
        → GetCase q (returns q' (some x))

  -- What Put does on every branch; it never panics.
  pub put-PutCase : (x : T) (q : BlockingQueue D) → PutCase x q (put D x q)
  unfolding put
  put-PutCase x q = go q.closed _ refl (ap (full_at D q.max_size) (sym (L.len_lem q.elems)))
    where
      go :
          (c f : Bool)
          → q.closed ≡ c
          → IsFull q f
          → PutCase x q (
              if not c && f
              then waits
              else if c
              then returns q false
              else returns (record q { elems = D.push_back x q.elems }) true)
      go true true e h = shut e
      go true false e h = shut e
      go false true e h = sleeps e h
      go false false e h = adds _ e h (L.contents-push_back x q.elems) refl refl

  -- What Get does on every branch; `PopFront` never panics.
  pub get-GetCase : (q : BlockingQueue D) → GetCase q (get D q)
  unfolding get
  get-GetCase q = rw (L.len_lem q.elems) (go q.closed (items q) _ refl refl refl)
    where
      go :
          (c : Bool) (l : List T) (o : Option (T × D.Rep))
          → q.closed ≡ c
          → items q ≡ l
          → D.pop_front q.elems ≡ o
          → GetCase q (
              if not c && nat_eq (length l) 0
              then waits
              else if not (nat_eq (length l) 0)
              then take_front D q o
              else returns q none)
      go true [] o e h p = ends e h
      go false [] o e h p = sleeps e h
      go c (x ∷ xs) none e h p = let (rest, popped, same) = L.pop_front_cons q.elems x xs h in cc
      go true (x ∷ xs) (some (y, r)) e h p =
          let (rest, popped, same) = L.pop_front_cons q.elems x xs h in
          rw (nat_eq-suc (length xs)) (takes _ y (cc) refl refl)
      go false (x ∷ xs) (some (y, r)) e h p =
          let (rest, popped, same) = L.pop_front_cons q.elems x xs h in
          rw (nat_eq-suc (length xs)) (takes _ y (cc) refl refl)
