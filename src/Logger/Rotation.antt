-- ===== src/Logger/Rotation.antt =====
-- The log file of the day, and the old ones.
use life_stream_go_mqtt_brok.Prelude.{
  Option, Bool, ◌==◌, ℕ, ◌&&◌, ◌≡◌, false, true, some, refl, none, arith, Bool-cases, inl, inr,
}
use life_stream_go_mqtt_brok.Logger.{
  LogServices, Today, rotate_if_needed, AsyncHandler, RotateError, with_directory, without_old,
  opened, has_file, close_old,
}

module _ (ls : LogServices) where
  -- Without an error a file is open, that of the day; with one the handler is as it was.
  abbrev pub Rotated :
      Today → AsyncHandler → Option RotateError × (AsyncHandler × ls.Files) → Type 0
  Rotated now h (none, (h', fs)) =
      (h'.current_day ≡ now.year_day) × (has_file ls h'.current_file ≡ true)
  Rotated now h (some e, (h', fs)) = h' ≡ h

  opened-Rotated :
      (now : Today) (h : AsyncHandler) (r : Option ℕ × ls.Files) → Rotated now h (opened ls now h r)
  opened-Rotated now h (none, fs) = refl
  opened-Rotated now h (some f, fs) = (refl, refl)

  with_directory-Rotated :
      (now later : Today) (h : AsyncHandler) (r : Bool × ls.Files)
      → Rotated now h (with_directory ls now later h r)
  with_directory-Rotated now later h (false, fs) = refl
  with_directory-Rotated now later h (true, fs) = opened-Rotated now h _

  without_old-Rotated :
      (now later : Today) (h : AsyncHandler) (r : Bool × ls.Files)
      → Rotated now h (without_old ls now later h r)
  without_old-Rotated now later h (false, fs) = refl
  without_old-Rotated now later h (true, fs) = with_directory-Rotated now later h _

  -- After a rotation without an error the handler has an open file and the day is the one at its
  -- start; after an error, of closing, of the directory or of opening, the handler is as it was.
  pub rotate_if_needed-Rotated :
      (now later : Today) (h : AsyncHandler) (fs : ls.Files)
      → Rotated now h (rotate_if_needed ls now later h fs)
  unfolding rotate_if_needed
  rotate_if_needed-Rotated now later h fs =
      elim (Bool-cases (now.year_day == h.current_day && has_file ls h.current_file)) [
        | inl current ↦ rw current (same_day current, has_one current)
        | inr stale ↦ rw stale (without_old-Rotated now later h (close_old ls h.current_file fs))
      ]
    where
      same_day :
          (now.year_day == h.current_day && has_file ls h.current_file) ≡ true
          → h.current_day ≡ now.year_day
      same_day e = ground arith

      has_one :
          (now.year_day == h.current_day && has_file ls h.current_file) ≡ true
          → has_file ls h.current_file ≡ true
      has_one e = both (now.year_day == h.current_day) (has_file ls h.current_file) e
        where
          both : (a b : Bool) → (a && b) ≡ true → b ≡ true
          both a b h = ground arith
