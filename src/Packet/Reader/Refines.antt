-- ===== src/Packet/Reader/Refines.antt =====
-- Each read of packet_utils.go agrees with its specification on the unread bytes, so it never
-- panics on a payload whose recorded length is that of its bytes.
use native.Mathlib.Decide.{dec_le}
use life_stream_go_mqtt_brok.Errors.{Error, payload_exceeds_buffer}
use life_stream_go_mqtt_brok.Prelude.Result.{slice, ok, Result, ◌>>=◌, err, panic, stuck}
use life_stream_go_mqtt_brok.Packet.Reader.Spec.{byte_of, At, Agrees, bytes_of, field_of, uint16_of}
use life_stream_go_mqtt_brok.Packet.Reader.{
  read_packet_byte, read_packet_bytes, read_packet_resume_byte, read_packet_payload, read_uint16,
  big_endian_uint16,
}
use life_stream_go_mqtt_brok.Mqtt.Frame.{Payload, check_remaining_length}
use life_stream_go_mqtt_brok.Prelude.{
  ℕ, List, ◌+◌, ◌≤◌, length, le→leb, ◌≡◌, arith, length-drop, drop, ◌∷◌, ap, drop-drop, take,
  lt→not_leb, ◌-◌, get_elem?-drop, [], refl, suc, ◌*◌, le→not_ltb, lt→ltb, zero, ne→not_==, Bool,
  false, true,
}

pub length_unread : (n : ℕ) (p : Payload) (s : List ℕ) → At n p s → p.current_ptr + length s ≡ n
length_unread n p s a =
    omega (arith, length-drop p.current_ptr p.context, ap length a.unread, a.whole, a.within)

-- The pointer moves by `k` bytes.
pub At-advance :
    (n k q : ℕ) (p : Payload) (s : List ℕ)
    → At n p s
    → k ≤ length s
    → q ≡ p.current_ptr + k
    → At n (record p { current_ptr = q }) (drop k s)
At-advance n k q p s a h e = record {
  len = a.len;
  whole = a.whole;
  within = omega (arith, length_unread n p s a);
  unread = rw (e, ← drop-drop p.current_ptr k p.context, a.unread);
}

-- A slice inside the unread bytes: `d` bytes in, `k` bytes long.
slice_unread :
    (n d k i j : ℕ) (p : Payload) (s : List ℕ)
    → At n p s
    → d + k ≤ length s
    → i ≡ p.current_ptr + d
    → j ≡ i + k
    → slice {E = Error} p.context i j ≡ ok (take k (drop d s))
slice_unread n d k i j p s a fits ei ej =
    rw
      (
        le→leb i j (omega arith),
        le→leb j (length p.context) (omega (arith, length_unread n p s a, a.whole)),
      )
      (rw (long, from) refl)
  where
    long : j - i ≡ k
    long = omega arith

    from : drop i p.context ≡ drop d s
    from = rw (ei, ← drop-drop p.current_ptr d p.context, a.unread) refl

pub read_packet_byte-Agrees :
    (n : ℕ) (p : Payload) (s : List ℕ) → At n p s → Agrees n (byte_of s) (read_packet_byte p)
unfolding read_packet_byte byte_of
read_packet_byte-Agrees n p [] a =
    rw (le→leb p.context_len p.current_ptr (omega (arith, length_unread n p [] a, a.len))) refl
read_packet_byte-Agrees n p (b ∷ s) a =
    rw (lt→not_leb p.context_len p.current_ptr (omega (arith, length_unread n p (b ∷ s) a, a.len)))
      (rw (get_elem?-drop p.current_ptr p.context a.unread)
        (refl, At-advance n 1 (p.current_ptr + 1) p (b ∷ s) a (omega arith) refl))

pub read_packet_bytes-Agrees :
    (n k : ℕ) (p : Payload) (s : List ℕ)
    → At n p s
    → Agrees n (bytes_of k s) (read_packet_bytes p k)
unfolding read_packet_bytes bytes_of
read_packet_bytes-Agrees n zero p s a = refl
read_packet_bytes-Agrees n (suc zero) p [] a =
    rw (le→leb p.context_len p.current_ptr (omega (arith, length_unread n p [] a, a.len))) refl
read_packet_bytes-Agrees n (suc zero) p (b ∷ s) a =
    rw (lt→not_leb p.context_len p.current_ptr (omega (arith, length_unread n p (b ∷ s) a, a.len)))
      (rw (le→leb 1 (suc (length s)) (omega arith), get_elem?-drop p.current_ptr p.context a.unread)
        (refl, At-advance n 1 (p.current_ptr + 1) p (b ∷ s) a (omega arith) refl))
read_packet_bytes-Agrees n (suc (suc k)) p s a =
    rw (ne→not_== (suc (suc k)) 0 (omega arith), ne→not_== (suc (suc k)) 1 (omega arith))
      (elim (dec_le (suc (suc k)) (length s)) [
        | yes fits ↦
            rw
              (
                le→leb (suc (suc k)) (length s) fits,
                lt→not_leb p.context_len p.current_ptr
                    (omega (arith, length_unread n p s a, a.len)),
                le→not_ltb p.context_len (p.current_ptr + suc (suc k))
                    (omega (arith, length_unread n p s a, a.len)),
                slice_unread n 0 (suc (suc k)) p.current_ptr (p.current_ptr + suc (suc k)) p s a
                    (omega arith) (omega arith) refl,
              )
              (refl, At-advance n (suc (suc k)) (p.current_ptr + suc (suc k)) p s a fits refl)
        | no short ↦
            rw (lt→not_leb (suc (suc k)) (length s) (omega arith))
              (elim (dec_le p.context_len p.current_ptr) [
                | yes at_end ↦ rw (le→leb p.context_len p.current_ptr at_end) refl
                | no inside ↦
                    rw
                      (
                        lt→not_leb p.context_len p.current_ptr (omega arith),
                        lt→ltb p.context_len (p.current_ptr + suc (suc k))
                            (omega (arith, length_unread n p s a, a.len)),
                      )
                      refl
              ])
      ])

pub read_packet_resume_byte-Agrees :
    (n : ℕ) (p : Payload) (s : List ℕ)
    → At n p s
    → Agrees n (bytes_of (length s) s) (read_packet_resume_byte p)
unfolding read_packet_resume_byte
read_packet_resume_byte-Agrees n p s a =
    let e : p.context_len - p.current_ptr ≡ length s =
      omega (arith, length_unread n p s a, a.len) in
    rw e (read_packet_bytes-Agrees n (length s) p s a)

-- `readPacketPayload` returns the field that stands in front of the unread bytes and moves the
-- pointer behind it, or fails with the error of its description; it never reads outside the buffer.
pub read_packet_payload-Agrees :
    (n : ℕ) (p : Payload) (s : List ℕ) → At n p s → Agrees n (field_of n s) (read_packet_payload p)
unfolding read_packet_payload field_of
read_packet_payload-Agrees n p [] a =
    rw (le→leb p.context_len (p.current_ptr + 1) (omega (arith, length_unread n p [] a, a.len)))
      refl
read_packet_payload-Agrees n p (hi ∷ []) a =
    rw
      (le→leb p.context_len (p.current_ptr + 1)
        (omega (arith, length_unread n p (hi ∷ []) a, a.len)))
      refl
read_packet_payload-Agrees n p (hi ∷ lo ∷ s) a =
    rw
      (
        lt→not_leb p.context_len (p.current_ptr + 1)
            (omega (arith, length_unread n p (hi ∷ lo ∷ s) a, a.len)),
        slice_unread n 0 2 p.current_ptr (p.current_ptr + 2) p (hi ∷ lo ∷ s) a (omega arith)
            (omega arith) refl,
      )
      (elim (dec_le (hi * 256 + lo) (length s)) [
        | yes fits ↦
            rw
              (
                le→leb (hi * 256 + lo) (length s) fits,
                le→not_ltb p.context_len (p.current_ptr + 2 + (hi * 256 + lo))
                    (omega (arith, length_unread n p (hi ∷ lo ∷ s) a, a.len)),
                slice_unread n 2 (hi * 256 + lo) (p.current_ptr + 2)
                    (p.current_ptr + 2 + (hi * 256 + lo)) p (hi ∷ lo ∷ s) a (omega arith) refl refl,
              )
              (
                refl,
                At-advance n (suc (suc (hi * 256 + lo))) (p.current_ptr + 2 + (hi * 256 + lo)) p
                    (hi ∷ lo ∷ s) a (omega arith) (omega arith),
              )
        | no short ↦
            rw
              (
                lt→not_leb (hi * 256 + lo) (length s) (omega arith),
                lt→ltb p.context_len (p.current_ptr + 2 + (hi * 256 + lo))
                    (omega (arith, length_unread n p (hi ∷ lo ∷ s) a, a.len)),
              )
              (ap (λ (t : ℕ). payload_exceeds_buffer (hi * 256 + lo) t) a.len)
      ])

-- The number in two bytes that were read.
uint16_after :
    (n : ℕ) (s : List ℕ) (r : Result Error (List ℕ × Payload))
    → Agrees n (bytes_of 2 s) r
    → Agrees n (uint16_of s) (do (xs, p') ← r; v ← big_endian_uint16 xs; ok (v, p'))
unfolding bytes_of uint16_of big_endian_uint16
uint16_after n [] (ok x) h = absurd h
uint16_after n [] (err e) h = h
uint16_after n [] panic h = absurd h
uint16_after n [] stuck h = absurd h
uint16_after n (hi ∷ []) (ok x) h = absurd h
uint16_after n (hi ∷ []) (err e) h = h
uint16_after n (hi ∷ []) panic h = absurd h
uint16_after n (hi ∷ []) stuck h = absurd h
uint16_after n (hi ∷ lo ∷ s) (ok (xs, p)) h =
    let h' = rw (le→leb 2 (suc (suc (length s))) (omega arith)) at h in rw h'.0 (refl, h'.1)
uint16_after n (hi ∷ lo ∷ s) (err e) h =
    absurd (rw (le→leb 2 (suc (suc (length s))) (omega arith)) at h)
uint16_after n (hi ∷ lo ∷ s) panic h =
    absurd (rw (le→leb 2 (suc (suc (length s))) (omega arith)) at h)
uint16_after n (hi ∷ lo ∷ s) stuck h =
    absurd (rw (le→leb 2 (suc (suc (length s))) (omega arith)) at h)

pub read_uint16-Agrees :
    (n : ℕ) (p : Payload) (s : List ℕ) → At n p s → Agrees n (uint16_of s) (read_uint16 p)
unfolding read_uint16
read_uint16-Agrees n p s a =
    uint16_after n s (read_packet_bytes p 2) (read_packet_bytes-Agrees n 2 p s a)

-- `CheckRemainingLength` tells whether a byte is unread.
abbrev pub is_more : List ℕ → Bool
is_more [] = false
is_more (b ∷ s) = true

pub check_remaining_length-is_more :
    (n : ℕ) (p : Payload) (s : List ℕ) → At n p s → check_remaining_length p ≡ is_more s
unfolding check_remaining_length
check_remaining_length-is_more n p [] a =
    le→not_ltb p.current_ptr p.context_len (omega (arith, length_unread n p [] a, a.len))
check_remaining_length-is_more n p (b ∷ s) a =
    lt→ltb p.current_ptr p.context_len (omega (arith, length_unread n p (b ∷ s) a, a.len))

pub At-start :
    (p : Payload)
    → p.context_len ≡ length p.context
    → p.current_ptr ≡ 0
    → At (length p.context) p p.context
At-start p len start = record {
  len = len;
  whole = refl;
  within = omega arith;
  unread = rw start refl;
}
