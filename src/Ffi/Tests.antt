-- ===== src/Ffi/Tests.antt =====
-- Imports of bindings/python/pyx/_ffi.py with two libraries.
use pyx.Base.{◌≡◌, ◌↔◌, refl, Bool, true, All}
use pyx.Ffi.{Symbol, pyx_get_zero_copy}
use pyx.Ffi.Signatures.{signatures}
use pyx.Ffi.Imports.{imported, attribute_error, bind_all, import_ffi, declared}
use pyx.Ffi.Header.{prototype}
use pyx.Ffi.Missing.{FirstMissing, import_ffi-ends}
use pyx.Ffi.Names.{times}
use pyx.Ffi.Agree.{Agrees, import_ffi-Agrees}

-- A library with every name.
abbrev complete : Symbol → Bool
complete name = true

import-complete : import_ffi complete ≡ imported signatures
unfolding bind_all
import-complete = refl

import_ffi-Agrees_example : ((name : Symbol) → times name signatures ≡ 1) × All Agrees signatures
import_ffi-Agrees_example = import_ffi-Agrees complete signatures import-complete

-- A library that exports what include/pyx.h declares and nothing else.
import-declared : import_ffi declared ≡ attribute_error pyx_get_zero_copy
unfolding bind_all prototype
import-declared = refl

import_ffi-ends_example :
    ((import_ffi declared ≡ imported signatures) ↔ ((name : Symbol) → declared name ≡ true))
    × ((name : Symbol)
        → (import_ffi declared ≡ attribute_error name) ↔ FirstMissing declared signatures name)
import_ffi-ends_example = import_ffi-ends declared
