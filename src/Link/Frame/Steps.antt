-- ===== src/Link/Frame/Steps.antt =====
-- One round of the decoder's loop, by how it ends.
use cdk.Prelude.{ℕ, suc, ◌≡◌, refl, none, some, length}
use cdk.Link.Frame.{Frame, Decoder, incomplete, resync, found, skip, find_magic, attempt, scan}

pub scan-zero : (d : Decoder) → scan 0 d ≡ none
unfolding scan
scan-zero d = refl

module _ (n : ℕ) (d : Decoder) where
  pub scan-none : find_magic d.buf ≡ none → scan (suc n) d ≡ some (none, skip (length d.buf) d)
  unfolding scan
  scan-none e = rw (e, scan) refl

  module _ (i : ℕ) (e : find_magic d.buf ≡ some i) where
    pub scan-incomplete :
        (d' : Decoder) → attempt (skip i d) ≡ incomplete d' → scan (suc n) d ≡ some (none, d')
    unfolding scan
    scan-incomplete d' a = rw (e, scan) (rw a refl)

    pub scan-resync : (d' : Decoder) → attempt (skip i d) ≡ resync d' → scan (suc n) d ≡ scan n d'
    unfolding scan
    scan-resync d' a = rw (e, scan) (rw a refl)

    pub scan-found :
        (f : Frame) (d' : Decoder)
        → attempt (skip i d) ≡ found f d'
        → scan (suc n) d ≡ some (some f, d')
    unfolding scan
    scan-found f d' a = rw (e, scan) (rw a refl)
