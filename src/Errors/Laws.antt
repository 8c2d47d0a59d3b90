-- ===== src/Errors/Laws.antt =====
-- The table of bindings/python/pyx/errors.py read from both sides.
use Prim.Native.String.{String}
use pyx.Base.{◌≡◌, ◌≢◌, arith}
use pyx.Base.Int.{ℤ, pos, negsuc}
use pyx.Errors.{pyx_error, from_status}

-- Two statuses that map to one class below `PyxError` are one status, so catching a subclass
-- catches one status code only.
from_status_separates :
    (s t : ℤ) (m n : String)
    → (from_status s m).cls ≢ pyx_error
    → (from_status s m).cls ≡ (from_status t n).cls
    → s ≡ t
unfolding from_status
from_status_separates (pos a) t m n h e = ground arith
from_status_separates (negsuc a) (pos b) m n h e = ground arith
from_status_separates (negsuc a) (negsuc b) m n h e = ground arith
