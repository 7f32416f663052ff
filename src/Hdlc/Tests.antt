-- ===== src/Hdlc/Tests.antt =====
-- Runs of src/lib/hdlc.c, and the theorems at concrete frames.
use nodeflight_fw.Base.{
  ℕ, ◌+◌, ◌*◌, ◌≤◌, some, [], ◌∷◌, ◌++◌, ◌≡◌, refl, Bytes, length, arith, pos, drop, minus_one,
  store,
}
use nodeflight_fw.Hdlc.{
  frame_boundary, hdlc_frame_stuff, hdlc_frame_unstuff, count_loop, stuff_loop, needs_escape,
  unstuff_loop, ends_frame,
}
use nodeflight_fw.Hdlc.Spec.{decode, encode, encode_byte}
use nodeflight_fw.Hdlc.Stuff.{hdlc_frame_stuff-encode}
use nodeflight_fw.Hdlc.RoundTrip.{Returns, strip, unstuff-stuff, hdlc_frame_unstuff-decode}

abbrev payload : Bytes
payload = 0x7e ∷ 0x41 ∷ 0x19 ∷ []

abbrev room : Bytes
room = 1 ∷ 2 ∷ 3 ∷ 4 ∷ 5 ∷ []

abbrev frame : Bytes
frame = 0x7d ∷ 0x5e ∷ 0x41 ∷ 0x7d ∷ 0x39 ∷ 0x7e ∷ []

stuff_test : hdlc_frame_stuff (payload ++ room) 3 ≡ some (pos 6, frame ++ 4 ∷ 5 ∷ [])
unfolding store hdlc_frame_stuff count_loop stuff_loop needs_escape
stuff_test = refl

unstuff_test :
    hdlc_frame_unstuff (0x41 ∷ 0x7d ∷ 0x7e ∷ []) 3 ≡ some (minus_one, 0x41 ∷ 0x7d ∷ 0x7e ∷ [])
unfolding store hdlc_frame_unstuff unstuff_loop ends_frame
unstuff_test = refl

unstuff-stuff_example :
    (n : ℕ) × (framed : Bytes) × (hdlc_frame_stuff (payload ++ room) (length payload)
      ≡ some (pos n, framed))
    × (n ≤ 2 * length payload + 1)
    × Returns (some payload) (hdlc_frame_unstuff framed n)
unstuff-stuff_example = unstuff-stuff payload room (omega arith)

hdlc_frame_unstuff-decode_example :
    Returns (decode (strip frame)) (hdlc_frame_unstuff (frame ++ room) (length frame))
hdlc_frame_unstuff-decode_example = hdlc_frame_unstuff-decode frame room

encode_test : encode payload ++ frame_boundary ∷ [] ≡ frame
unfolding encode encode_byte needs_escape
encode_test = refl

encode_size : length (encode payload) + 1 ≤ length payload + length room
unfolding encode encode_byte needs_escape
encode_size = omega arith

hdlc_frame_stuff-encode_example :
    hdlc_frame_stuff (payload ++ room) (length payload)
    ≡ some (
      pos (length (encode payload) + 1),
      encode payload ++ frame_boundary ∷ drop (length (encode payload) + 1) (payload ++ room),
    )
hdlc_frame_stuff-encode_example = hdlc_frame_stuff-encode payload room encode_size
