-- ===== src/Nfcp/Put.antt =====
-- Writing at a pointer that moves: `ptr` is an index into the buffer.
use nodeflight_fw.Base.{
  ℕ, ◌+◌, ◌≤◌, Option, some, [], ◌∷◌, ◌++◌, ◌≡◌, refl, sym, ap, ap₂, ◌∙◌, Bytes, u8, length, drop,
  store, ◌>>=◌, arith, length-append, length-drop, append_assoc, store-append, drop-drop,
}
use nodeflight_fw.Pack.{pack_from_u16}
use nodeflight_fw.Pack.RoundTrip.{pack_from_u16-bytes, bytes_of_u16}
use nodeflight_fw.Nfcp.Mgmt.{fill}
use nodeflight_fw.Nfcp.Session.{fill-append}

-- A buffer with `ptr`.
abbrev pub Cursor : Type 0
Cursor = Bytes × ℕ

abbrev pub Put : Type 0
Put = Cursor → Option Cursor

infixl 5 ◌then_put◌
abbrev pub ◌then_put◌ : Put → Put → Put
◌then_put◌ v w c = v c >>= w

-- `*(ptr++) = c`
unfoldable pub put_u8 : ℕ → Put
put_u8 c (buf, ptr) = store buf ptr (u8 c) >>= λ b. some (b, ptr + 1)

-- `pack_from_u16(ptr, val); ptr += 2`
unfoldable pub put_u16 : ℕ → Put
put_u16 val (buf, ptr) = pack_from_u16 buf ptr val >>= λ b. some (b, ptr + 2)

-- `for (i = 0; text[i] != '\0'; i++) *(ptr++) = text[i]`
unfoldable pub put_text : Bytes → Put
put_text text (buf, ptr) = fill buf ptr text >>= λ b. some (b, ptr + length text)

-- What a writer puts behind the bytes that stand before `ptr`, where there is room.
abbrev pub Emits : Put → Bytes → Type 0
Emits w bytes =
    (xs tail : Bytes)
    → length bytes ≤ length tail
    → w (xs ++ tail, length xs)
      ≡ some (xs ++ (bytes ++ drop (length bytes) tail), length xs + length bytes)

pub Emits-some : Emits some []
Emits-some xs tail h = ap (λ (t : ℕ). some (xs ++ tail, t)) (omega arith)

pub Emits-put_u8 : (c : ℕ) → Emits (put_u8 c) (u8 c ∷ [])
unfolding put_u8
Emits-put_u8 c xs [] h = absurd (omega arith)
Emits-put_u8 c xs (t ∷ tail) h = rw (store-append xs tail t (u8 c) (length xs) refl) refl

pub Emits-put_u16 : (val : ℕ) → Emits (put_u16 val) (bytes_of_u16 val)
unfolding put_u16
Emits-put_u16 val xs [] h = absurd (omega arith)
Emits-put_u16 val xs (a ∷ []) h = absurd (omega arith)
Emits-put_u16 val xs (a ∷ b ∷ tail) h = rw (pack_from_u16-bytes xs tail a b val) refl

pub Emits-put_text : (text : Bytes) → Emits (put_text text) text
unfolding put_text
Emits-put_text text xs tail h =
    rw (fill-append xs tail text (length xs) refl h)
      (ap (λ t. some (t, length xs + length text)) (append_assoc xs text (drop (length text) tail)))

pub Emits-then :
    (v w : Put) (bs cs : Bytes) → Emits v bs → Emits w cs → Emits (v then_put w) (bs ++ cs)
Emits-then v w bs cs hv hw xs tail h =
    let n : length (bs ++ cs) ≡ length bs + length cs = length-append bs cs in
    let left = length-drop (length bs) tail in
    rw (hv xs tail (omega arith)) (
      ap₂ (λ s (t : ℕ). w (s, t)) (sym (append_assoc xs bs (drop (length bs) tail)))
        (sym (length-append xs bs))
      ∙ hw (xs ++ bs) (drop (length bs) tail) (omega arith)
      ∙ ap₂ (λ s (t : ℕ). some (s, t))
          (append_assoc xs bs (cs ++ drop (length cs) (drop (length bs) tail))
            ∙ ap (λ t. xs ++ t)
                (sym (append_assoc bs cs (drop (length cs) (drop (length bs) tail)))
                  ∙ ap (λ t. (bs ++ cs) ++ t)
                      (drop-drop (length cs) (length bs) (length (bs ++ cs)) tail (omega arith))))
          (omega (arith, length-append xs bs)))
