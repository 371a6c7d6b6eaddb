-- ===== src/Base/Exits.antt =====
-- How a handler ends: by itself, by an exception of `decodeURIComponent`, or by reading a property
-- of `undefined`.
pub data Exit : Type 0 where
  finished uri_error type_error : Exit

-- What comes next does so if nothing was thrown.
infixl 5 ◌>>=◌
abbrev pub ◌>>=◌ : {S : Type 0} → S × Exit → (S → S × Exit) → S × Exit
(c, finished) >>= f = f c
(c, uri_error) >>= f = (c, uri_error)
(c, type_error) >>= f = (c, type_error)
