-- ===== src/Nfcp/Cap/Writes.antt =====
-- Writers that put short bytes, and the headers of the answers.
use nodeflight_fw.Base.{
  ℕ, ◌+◌, ◌≤◌, ◌<◌, Bool, true, false, ◌&&◌, Option, none, some, List, [], ◌∷◌, ◌++◌, ltb,
  if◌then◌else◌, ◌≡◌, refl, Bytes, length, get_elem?, get_elem?-lt, u8, u16, arith, inl, inr,
  Bool-cases, ltb→lt, ltb→ge, get_elem?-ge, length-append, pos,
}
use nodeflight_fw.Pack.RoundTrip.{bytes_of_u16}
use nodeflight_fw.Resource.{by_index}
use nodeflight_fw.Nfcp.Put.{
  Put, ◌then_put◌, put_u8, put_u16, put_text, Emits, Emits-some, Emits-put_u8, Emits-put_u16,
  Emits-put_text, Emits-then,
}
use nodeflight_fw.Nfcp.Cap.{Query, nfcp_set_header, prepare_response, entry_of, checked_entry}

-- A writer puts these bytes, and they are short.
pub record Writes (bound : ℕ) (w : Put) (bytes : Bytes) : Type 0 where
  pub emits : Emits w bytes
  pub small : length bytes ≤ bound

pub Writes-some : (bound : ℕ) → Writes bound some []
Writes-some bound = record { emits = Emits-some; small = omega arith }

pub Writes-put_u8 : (c : ℕ) → Writes 1 (put_u8 c) (u8 c ∷ [])
Writes-put_u8 c = record { emits = Emits-put_u8 c; small = omega arith }

pub Writes-put_u16 : (c : ℕ) → Writes 2 (put_u16 c) (bytes_of_u16 c)
Writes-put_u16 c = record { emits = Emits-put_u16 c; small = omega arith }

pub Writes-put_text :
    (text : Bytes) (bound : ℕ) → length text ≤ bound → Writes bound (put_text text) text
Writes-put_text text bound h = record { emits = Emits-put_text text; small = h }

pub Writes-then :
    (v w : Put) (bs cs : Bytes) (m n k : ℕ)
    → Writes m v bs
    → Writes n w cs
    → m + n ≤ k
    → Writes k (v then_put w) (bs ++ cs)
Writes-then v w bs cs m n k hv hw le = record {
  emits = Emits-then v w bs cs hv.emits hw.emits;
  small = omega (arith, length-append bs cs, hv.small, hw.small);
}

-- A test that picks one of two writers.
pub Writes-if :
    (t : Bool) (v w : Put) (bs cs : Bytes) (k : ℕ)
    → (t ≡ true → Writes k v bs)
    → (t ≡ false → Writes k w cs)
    → Writes k (if t then v else w) (if t then bs else cs)
Writes-if true v w bs cs k hv hw = hv refl
Writes-if false v w bs cs k hv hw = hw refl

-- The header of an answer.
abbrev pub header_bytes : ℕ → ℕ → Bytes
header_bytes op seq_nr = 7 ∷ u8 op ∷ u8 seq_nr ∷ []

pub nfcp_set_header-Writes :
    (op seq_nr : ℕ) → Writes 3 (nfcp_set_header 1 op true true seq_nr) (header_bytes op seq_nr)
unfolding nfcp_set_header
nfcp_set_header-Writes op seq_nr =
    Writes-then _ _ (7 ∷ u8 op ∷ []) (u8 seq_nr ∷ []) 2 1 3
      (Writes-then _ _ (7 ∷ []) (u8 op ∷ []) 1 1 2 (Writes-put_u8 7) (Writes-put_u8 op)
        (omega arith))
      (Writes-put_u8 seq_nr) (omega arith)

-- The header and the query that it answers.
abbrev pub prefix_bytes : ℕ → ℕ → Query → Bytes
prefix_bytes op seq_nr q =
    ((header_bytes op seq_nr ++ bytes_of_u16 q.obj_id) ++ u8 q.field_type ∷ [])
    ++ bytes_of_u16 q.field_idx

pub prepare_response-Writes :
    (op seq_nr : ℕ) (q : Query) → Writes 8 (prepare_response op seq_nr q) (prefix_bytes op seq_nr q)
unfolding prepare_response
prepare_response-Writes op seq_nr q =
    Writes-then _ _ _ _ 6 2 8
      (Writes-then _ _ _ _ 5 1 6
        (Writes-then _ _ _ _ 3 2 5 (nfcp_set_header-Writes op seq_nr) (Writes-put_u16 q.obj_id)
          (omega arith))
        (Writes-put_u8 q.field_type) (omega arith))
      (Writes-put_u16 q.field_idx) (omega arith)

-- What an entry of a table says, and nothing where there is none.
abbrev pub entry_bytes {ℓ} : {A : Type ℓ} → Option A → (A → Bytes) → Bytes
entry_bytes none f = []
entry_bytes (some a) f = f a

pub checked_entry-Writes {ℓ} :
    {A : Type ℓ} (table : List A) (i k : ℕ) (write : A → Put) (f : A → Bytes)
    → i < length table
    → ((a : A) → get_elem? table i ≡ some a → Writes k (write a) (f a))
    → Writes k (checked_entry (get_elem? table i) write) (entry_bytes (get_elem? table i) f)
unfolding checked_entry
checked_entry-Writes table i k write f l h = let (a, e) = get_elem?-lt table i l in rw e (h a e)

pub entry_of-Writes {ℓ} :
    {A : Type ℓ} (table : List A) (i k : ℕ) (write : A → Put) (f : A → Bytes)
    → ((a : A) → get_elem? table i ≡ some a → Writes k (write a) (f a))
    → Writes k (entry_of table (by_index table (pos i)) write) (entry_bytes (get_elem? table i) f)
unfolding entry_of by_index
entry_of-Writes table i k write f h = elim (Bool-cases (ltb i (length table))) [
  | inl l ↦ rw l (checked_entry-Writes table i k write f (ltb→lt i (length table) l) h)
  | inr l ↦
      let beyond = get_elem?-ge table i (ltb→ge i (length table) l) in
      rw (l, beyond) (Writes-some k)
]

pub within_count : (i n : ℕ) (b : Bool) → b && ltb i (u16 n) ≡ true → i < n
within_count i n true e = omega (arith, ltb→lt i (u16 n) e)
within_count i n false e = absurd cc
