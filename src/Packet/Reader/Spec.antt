-- ===== src/Packet/Reader/Spec.antt =====
-- The reads as functions of the bytes that are still unread: no pointer, no buffer, no panic.
use native.Mathlib.Decide.{dec_le}
use life_stream_go_mqtt_brok.Packet.Reader.{FieldPayload}
use life_stream_go_mqtt_brok.Errors.{
  Error, invalid_context_length, insufficient_length_bytes, invalid_reading_length,
  payload_exceeds_buffer,
}
use life_stream_go_mqtt_brok.Prelude.Result.{Result, err, ◌>>=◌, ok, panic, stuck, map_err, Yields}
use life_stream_go_mqtt_brok.Mqtt.Frame.{Payload}
use life_stream_go_mqtt_brok.Prelude.{
  ℕ, List, ◌≡◌, if◌then◌else◌, length, ◌==◌, ◌≤◌, ◌∷◌, drop, leb, ◌*◌, [], take, ◌+◌, ap, ne→not_==,
  suc, arith, le→leb, take_all, drop_all, refl, Bool-cases, inl, length-drop, inr, AllBytes,
  AllBytes-drop, IsByte, ◌<◌, length-take, lt→not_leb,
}

unfoldable pub byte_of : List ℕ → Result Error (ℕ × List ℕ)
byte_of [] = err invalid_context_length
byte_of (b ∷ s) = ok (b, s)

unfoldable pub bytes_of : ℕ → List ℕ → Result Error (List ℕ × List ℕ)
bytes_of k s =
    if k == 0
    then err invalid_reading_length
    else if leb k (length s)
    then ok (take k s, drop k s)
    else err invalid_context_length

-- `total` is the length of the whole packet body, which one message quotes.
unfoldable pub field_of : ℕ → List ℕ → Result Error (FieldPayload × List ℕ)
field_of total [] = err insufficient_length_bytes
field_of total (hi ∷ []) = err insufficient_length_bytes
field_of total (hi ∷ lo ∷ s) =
    let k = hi * 256 + lo in
    if leb k (length s)
    then ok (record { payload_length = k; payload = take k s }, drop k s)
    else err (payload_exceeds_buffer k total)

-- The payload `p` of a body of `total` bytes stands before the unread bytes `s`.
pub record At (total : ℕ) (p : Payload) (s : List ℕ) : Type 0 where
  pub len : p.context_len ≡ total
  pub whole : length p.context ≡ total
  pub within : p.current_ptr ≤ total
  pub unread : drop p.current_ptr p.context ≡ s

-- A read and its specification return the same value, or the same error.
abbrev pub Agrees : {E A : Type 0} → ℕ → Result E (A × List ℕ) → Result E (A × Payload) → Type 0
Agrees n (ok (a, s)) (ok (b, p)) = (b ≡ a) × At n p s
Agrees n (ok (a, s)) (err e) = ⊥
Agrees n (ok (a, s)) panic = ⊥
Agrees n (ok (a, s)) stuck = ⊥
Agrees n (err d) (ok x) = ⊥
Agrees n (err d) (err e) = e ≡ d
Agrees n (err d) panic = ⊥
Agrees n (err d) stuck = ⊥
Agrees n panic r = ⊥
Agrees n stuck r = ⊥

module _ {E A B : Type 0} where
  -- Two runs that begin with such a pair and go on alike return alike.
  pub Agrees-bind :
      (n : ℕ) (m : Result E (A × List ℕ)) (r : Result E (A × Payload)) (f : A × List ℕ → Result E B)
      (g : A × Payload → Result E B)
      → Agrees n m r
      → ((a : A) (s : List ℕ) (p : Payload) → At n p s → g (a, p) ≡ f (a, s))
      → (r >>= g) ≡ (m >>= f)
  Agrees-bind n (ok (a, s)) (ok (b, p)) f g h k = rw h.0 (k a s p h.1)
  Agrees-bind n (ok (a, s)) (err e) f g h k = absurd h
  Agrees-bind n (ok (a, s)) panic f g h k = absurd h
  Agrees-bind n (ok (a, s)) stuck f g h k = absurd h
  Agrees-bind n (err d) (ok x) f g h k = absurd h
  Agrees-bind n (err d) (err e) f g h k = ap err h
  Agrees-bind n (err d) panic f g h k = absurd h
  Agrees-bind n (err d) stuck f g h k = absurd h
  Agrees-bind n panic r f g h k = absurd h
  Agrees-bind n stuck r f g h k = absurd h

unfoldable pub uint16_of : List ℕ → Result Error (ℕ × List ℕ)
uint16_of [] = err invalid_context_length
uint16_of (hi ∷ []) = err invalid_context_length
uint16_of (hi ∷ lo ∷ s) = ok (hi * 256 + lo, s)

pub Agrees-map_err :
    {D E A : Type 0} (n : ℕ) (w : D → E) (m : Result D (A × List ℕ)) (r : Result D (A × Payload))
    → Agrees n m r
    → Agrees n (map_err w m) (map_err w r)
Agrees-map_err n w (ok (a, s)) (ok (b, p)) h = h
Agrees-map_err n w (ok (a, s)) (err e) h = absurd h
Agrees-map_err n w (ok (a, s)) panic h = absurd h
Agrees-map_err n w (ok (a, s)) stuck h = absurd h
Agrees-map_err n w (err d) (ok x) h = absurd h
Agrees-map_err n w (err d) (err e) h = ap w h
Agrees-map_err n w (err d) panic h = absurd h
Agrees-map_err n w (err d) stuck h = absurd h
Agrees-map_err n w panic r h = absurd h
Agrees-map_err n w stuck r h = absurd h

pub bytes_of-length : (b : ℕ) (s : List ℕ) → bytes_of (length (b ∷ s)) (b ∷ s) ≡ ok (b ∷ s, [])
unfolding bytes_of
bytes_of-length b s =
    rw
      (
        ne→not_== (suc (length s)) 0 (omega arith),
        le→leb (suc (length s)) (suc (length s)) (omega arith),
        take_all (length s) s (omega arith),
        drop_all (length s) s (omega arith),
      )
      refl

module _ {E A B : Type 0} where
  -- The same for two runs that go on to agree.
  pub Agrees-then :
      (n : ℕ) (m : Result E (A × List ℕ)) (r : Result E (A × Payload))
      (f : A × List ℕ → Result E (B × List ℕ)) (g : A × Payload → Result E (B × Payload))
      → Agrees n m r
      → ((a : A) (s : List ℕ) (p : Payload) → At n p s → Agrees n (f (a, s)) (g (a, p)))
      → Agrees n (m >>= f) (r >>= g)
  Agrees-then n (ok (a, s)) (ok (b, p)) f g h k = rw h.0 (k a s p h.1)
  Agrees-then n (ok (a, s)) (err e) f g h k = absurd h
  Agrees-then n (ok (a, s)) panic f g h k = absurd h
  Agrees-then n (ok (a, s)) stuck f g h k = absurd h
  Agrees-then n (err d) (ok x) f g h k = absurd h
  Agrees-then n (err d) (err e) f g h k = h
  Agrees-then n (err d) panic f g h k = absurd h
  Agrees-then n (err d) stuck f g h k = absurd h
  Agrees-then n panic r f g h k = absurd h
  Agrees-then n stuck r f g h k = absurd h

-- A read that its specification says succeeds does.
pub Agrees-ok :
    {E A : Type 0} (n : ℕ) (a : A) (s : List ℕ) (r : Result E (A × Payload))
    → Agrees n (ok (a, s)) r
    → (p : Payload) × (r ≡ ok (a, p)) × At n p s
Agrees-ok n a s (ok (b, p)) h = (p, rw h.0, h.1)
Agrees-ok n a s (err e) h = absurd h
Agrees-ok n a s panic h = absurd h
Agrees-ok n a s stuck h = absurd h

-- A read that succeeds leaves fewer bytes unread.
abbrev pub Shorter : {A : Type 0} → ℕ → List ℕ → A × List ℕ → Type 0
Shorter k s (a, s') = (length s' + k ≤ length s) × AllBytes s'

pub field_of_takes : (n : ℕ) (s : List ℕ) → AllBytes s → Yields (Shorter 2 s) (field_of n s)
unfolding field_of
field_of_takes n [] h = tt
field_of_takes n (hi ∷ []) h = tt
field_of_takes n (hi ∷ lo ∷ s) (h1, (h2, h)) = elim (Bool-cases (leb (hi * 256 + lo) (length s))) [
  | inl fits ↦
      rw fits (omega (arith, length-drop (hi * 256 + lo) s), AllBytes-drop (hi * 256 + lo) s h)
  | inr short ↦ rw short tt
]

pub byte_of_takes :
    (s : List ℕ) → AllBytes s → Yields (λ (r : ℕ × List ℕ). IsByte r.0 × Shorter 1 s r) (byte_of s)
unfolding byte_of
byte_of_takes [] h = tt
byte_of_takes (b ∷ s) h = (h.0, (omega arith, h.1))

pub uint16_of_takes : (s : List ℕ) → AllBytes s → Yields (Shorter 2 s) (uint16_of s)
unfolding uint16_of
uint16_of_takes [] h = tt
uint16_of_takes (hi ∷ []) h = tt
uint16_of_takes (hi ∷ lo ∷ s) h = (omega arith, h.1.1)

module _ {D E A B : Type 0} (P : B → Type 0) (k : ℕ) (s : List ℕ) (w : D → E) where
  -- A run that goes on from such a read.
  pub Shorter-bind :
      (m : Result D (A × List ℕ)) (f : A × List ℕ → Result E B)
      → Yields (Shorter k s) m
      → ((a : A) (s' : List ℕ) → length s' + k ≤ length s → AllBytes s' → Yields P (f (a, s')))
      → Yields P (map_err w m >>= f)
  Shorter-bind (ok (a, s')) f h c = c a s' h.0 h.1
  Shorter-bind (err e) f h c = tt
  Shorter-bind panic f h c = absurd h
  Shorter-bind stuck f h c = absurd h

-- A field of a packet has its length recorded, and it fits 16 bits.
abbrev pub IsFieldOf : FieldPayload × List ℕ → Type 0
IsFieldOf (x, s) = (x.payload_length ≡ length x.payload) × (length x.payload < 65536) × AllBytes s

pub field_of-IsFieldOf : (n : ℕ) (s : List ℕ) → AllBytes s → Yields IsFieldOf (field_of n s)
unfolding field_of
field_of-IsFieldOf n [] h = tt
field_of-IsFieldOf n (hi ∷ []) h = tt
field_of-IsFieldOf n (hi ∷ lo ∷ s) (h1, (h2, h)) = elim (dec_le (hi * 256 + lo) (length s)) [
  | yes fits ↦ rw (le→leb (hi * 256 + lo) (length s) fits) (
    omega (arith, length-take (hi * 256 + lo) s),
    omega (arith, length-take (hi * 256 + lo) s),
    AllBytes-drop (hi * 256 + lo) s h,
  )
  | no short ↦ rw (lt→not_leb (hi * 256 + lo) (length s) (omega arith)) tt
]

pub uint16_of-lt :
    (s : List ℕ) → AllBytes s → Yields (λ (r : ℕ × List ℕ). r.0 < 65536) (uint16_of s)
unfolding uint16_of
uint16_of-lt [] h = tt
uint16_of-lt (hi ∷ []) h = tt
uint16_of-lt (hi ∷ lo ∷ s) (h1, (h2, h)) = omega arith
