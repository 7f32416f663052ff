-- ===== src/Config/Queue.antt =====
-- The queue of included files, as a list.
use nodeflight_fw.Base.{
  ℕ, zero, suc, ◌+◌, ◌-◌, ◌%◌, ◌<◌, true, false, Option, none, some, List, [], ◌∷◌, ◌++◌, ◌==◌, ◌≡◌,
  ◌≢◌, refl, sym, ap, ap₂, ◌∙◌, ◌⊎◌, inl, inr, ltb, ltb→lt, ltb→ge, Bool-cases, Bytes, length,
  length-set, get_elem?, get_elem?-lt, ==→eq, eq→==, get_elem?-set_self, get_elem?-set_ne, set,
  store-set, pos, arith,
}
use nodeflight_fw.Strops.{strops_cmp}
use nodeflight_fw.Resource.{is_zero}
use nodeflight_fw.Module.Init.{given}
use nodeflight_fw.Config.{
  queue_length, Config, Found, inc_word, is_comment, push, include_file, cf_process_line, pop,
}

-- The indices of the queue are in it.
pub record IsQueue (c : Config) : Type 0 where
  pub whole : length c.queue ≡ queue_length
  pub head : c.head < queue_length
  pub tail : c.tail < queue_length

abbrev pub path_of : Option (Option Bytes) → Option Bytes
path_of none = none
path_of (some path) = path

-- The `n` paths from `h` on.
pub paths : ℕ → ℕ → List (Option Bytes) → List (Option Bytes)
paths zero h queue = []
paths (suc n) h queue = path_of (get_elem? queue h) ∷ paths n ((h + 1) % 16) queue

-- How many paths are waiting, as the indices tell.
abbrev pub count : Config → ℕ
count c = (c.tail + 16 - c.head) % 16

unfoldable pub waiting : Config → List (Option Bytes)
unfolding paths
waiting c = paths (count c) c.head c.queue

paths-set :
    (n k h t : ℕ) (queue : List (Option Bytes)) (path : Option Bytes)
    → h < 16
    → n + k < 16
    → t ≡ (h + (n + k)) % 16
    → paths n h (set queue t path) ≡ paths n h queue
unfolding paths
paths-set zero k h t queue path hh room e = refl
paths-set (suc n) k h t queue path hh room e =
    let other : t ≢ h = λ s. absurd (omega (arith, s, e, hh, room)) in
    ap₂ (λ a b. path_of a ∷ b) (get_elem?-set_ne queue t h path other)
      (paths-set n k ((h + 1) % 16) t queue path (omega arith) (omega (arith, room))
        (omega (arith, e)))

paths-snoc :
    (n h t : ℕ) (queue : List (Option Bytes))
    → t ≡ (h + n) % 16
    → h < 16
    → paths (suc n) h queue ≡ paths n h queue ++ path_of (get_elem? queue t) ∷ []
unfolding paths
paths-snoc zero h t queue e hh =
    let same : h ≡ t = omega (arith, e, hh) in ap (λ j. path_of (get_elem? queue j) ∷ []) same
paths-snoc (suc n) h t queue e hh =
    ap (λ rest. path_of (get_elem? queue h) ∷ rest)
      (paths-snoc n ((h + 1) % 16) t queue (omega (arith, e)) (omega arith))

-- Putting a path into the queue.
push-waiting :
    (path : Option Bytes) (c : Config)
    → IsQueue c
    → (c' : Config) × (push path c ≡ some c')
      × IsQueue c'
      × (((count c < 15) × (waiting c' ≡ waiting c ++ path ∷ []))
          ⊎ ((count c ≡ 15) × (waiting c' ≡ [])))
unfolding push waiting
push-waiting path c q =
    let n = count c in
    let queue' = set c.queue c.tail path in
    let c' : Config = record c { queue = queue'; tail = (c.tail + 1) % 16 } in
    let lt : c.tail < length c.queue = omega (arith, q.whole, q.tail) in
    let at_tail : c.tail ≡ (c.head + (n + 0)) % 16 = omega (arith, q.head, q.tail) in
    let at_tail' : c.tail ≡ (c.head + n) % 16 = omega (arith, q.head, q.tail) in
    (
      c',
      rw (store-set c.queue c.tail path lt) refl,
      record {
        whole = length-set c.queue c.tail path ∙ q.whole;
        head = q.head;
        tail = omega arith;
      },
      elim (Bool-cases (ltb (count c) 15)) [
        | inl z ↦
            let more : count c' ≡ suc n = omega (arith, ltb→lt (count c) 15 z, q.head, q.tail) in
            inl (
              ltb→lt (count c) 15 z,
              ap (λ m. paths m c.head queue') more
                  ∙ paths-snoc n c.head c.tail queue' at_tail' q.head
                  ∙ ap₂ (λ a b. a ++ b ∷ [])
                      (paths-set n 0 c.head c.tail c.queue path q.head
                        (omega (arith, ltb→lt (count c) 15 z)) at_tail)
                      (ap path_of (get_elem?-set_self c.queue c.tail path lt)),
            )
        | inr z ↦
            let full : count c ≡ 15 = omega (arith, ltb→ge (count c) 15 z) in
            let nothing : count c' ≡ 0 = omega (arith, full, q.head, q.tail) in
            inr (full, ap (λ m. paths m c.head queue') nothing)
      ],
    )

-- A line `inc` with a path.
include_line :
    (f : Found) (path : Bytes) (c : Config)
    → cf_process_line f (inc_word ∷ path ∷ []) c ≡ include_file f (path ∷ []) c
unfolding cf_process_line is_comment include_file push is_zero strops_cmp
include_line f path c = refl

-- With less than 15 paths in the queue, a line `inc` with memory for its path puts that behind them;
-- with 15 of them it leaves the queue empty, since a queue with 16 paths looks like an empty one. The
-- line returns 0 in both cases, and the indices stay in the queue.
pub include-waiting :
    (f : Found) (path : Bytes) (c : Config)
    → f.path ≡ true
    → IsQueue c
    → (c' : Config) × (cf_process_line f (inc_word ∷ path ∷ []) c ≡ some (given (pos 0), c'))
      × IsQueue c'
      × (((count c < 15) × (waiting c' ≡ waiting c ++ some path ∷ []))
          ⊎ ((count c ≡ 15) × (waiting c' ≡ [])))
unfolding include_file
include-waiting f path c memory q =
    let (c', run, q', left) = push-waiting (some path) c q in
    (c', include_line f path c ∙ rw (memory, run) refl, q', left)

differ : (a b : ℕ) → (a == b) ≡ false → a ≢ b
differ a b z e = absurd (true_is_not_false (sym (eq→== a b e) ∙ z))
  where
    true_is_not_false : true ≡ false → ⊥
    true_is_not_false p = cc

-- `cf_init` takes the paths of the queue in their order, until there is none.
pop-waiting :
    (c : Config)
    → IsQueue c
    → ((waiting c ≡ []) × (pop c ≡ some none))
      ⊎ ((path : Option Bytes) × (c' : Config) × (pop c ≡ some (some (path, c')))
          × IsQueue c'
          × (waiting c ≡ path ∷ waiting c'))
unfolding pop waiting paths
pop-waiting c q = elim (Bool-cases (c.head == c.tail)) [
  | inl z ↦
      let same = ==→eq c.head c.tail z in
      let nothing : count c ≡ 0 = omega (arith, same, q.head, q.tail) in
      inl (ap (λ m. paths m c.head c.queue) nothing, rw z refl)
  | inr z ↦
      let c' : Config = record c { head = (c.head + 1) % 16 } in
      let (path, at_head) = get_elem?-lt c.queue c.head (omega (arith, q.whole, q.head)) in
      let more : count c ≡ suc (count c') = omega (arith, differ c.head c.tail z, q.head, q.tail) in
      inr (
        path,
        c',
        rw (z, at_head) refl,
        record { whole = q.whole; head = omega arith; tail = q.tail },
        ap (λ m. paths m c.head c.queue) more ∙ ap (λ p. path_of p ∷ waiting c') at_head,
      )
]
