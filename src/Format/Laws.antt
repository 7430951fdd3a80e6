-- ===== src/Format/Laws.antt =====
-- The tables of sample formats of the client and the server agree.
use rsound.Base.{◌<◌, ◌≡◌, refl, some, Bool, true, false, arith}
use rsound.Format.{Format, no_fmt, code, of_code, to_samplesize, to_bytes, resolve}

pub Format-discrete : Discrete Format
Format-discrete = hlevel

-- Every enumerator is found again from its value, and the values fit 16 bits.
pub of_code-code : (f : Format) → (of_code (code f) ≡ some f) × (code f < 0x1_0000)
unfolding of_code
of_code-code no_fmt = (refl, omega arith)
of_code-code _ = (refl, omega arith)

-- On either kind of machine the server has the client's sample size for the format that the
-- client announces, for every format that the client accepts and for the absent one.
pub to_bytes-resolve : (little : Bool) (f : Format) → to_bytes (resolve little f) ≡ to_samplesize f
to_bytes-resolve true no_fmt = refl
to_bytes-resolve true _ = refl
to_bytes-resolve false no_fmt = refl
to_bytes-resolve false _ = refl
