-- ===== src/Proto/Tests.antt =====
-- `get_proto` of src/proto.c at concrete inputs.
use rsound.Base.{◌≡◌, refl, some, List, [], ◌∷◌, ◌++◌, ℕ, arith, replicate}
use rsound.Base.Int.{pos, negsuc}
use rsound.Proto.Number.{number, scan}
use rsound.Proto.Serve.{Connection, announced, handle_ctl_request, overrun, taken}
use rsound.Proto.Reply.{message_pass, handle_ctl_request_overruns}
use rsound.Proto.{stop, info, get_proto}
use rsound.Proto.Info.{get_proto-info_body}
use rsound.Client.Text.{identity_word, info_body}

-- " INFO 4096"
get_proto-info :
    get_proto (b' ' ∷ b'I' ∷ b'N' ∷ b'F' ∷ b'O' ∷ b' ' ∷ b'4' ∷ b'0' ∷ b'9' ∷ b'6' ∷ [])
    ≡ some (info 4096)
unfolding get_proto
get_proto-info = refl

-- "NONSTOP"
abbrev nonstop : List ℕ
nonstop = b'N' ∷ b'O' ∷ b'N' ∷ b'S' ∷ b'T' ∷ b'O' ∷ b'P' ∷ []

get_proto-nonstop : get_proto (identity_word ++ nonstop) ≡ some stop
unfolding get_proto
get_proto-nonstop = refl

get_proto-info_body_example :
    get_proto (info_body 0xFFFF_FFFF_FFFF_FFFE) ≡ some (info 0xFFFF_FFFF_FFFF_FFFE)
get_proto-info_body_example = get_proto-info_body 0xFFFF_FFFF_FFFF_FFFE (omega arith)

-- " INFO -2"
info_body-negative :
    info_body 0xFFFF_FFFF_FFFF_FFFE ≡ b' ' ∷ b'I' ∷ b'N' ∷ b'F' ∷ b'O' ∷ b' ' ∷ b'-' ∷ b'2' ∷ []
info_body-negative = refl

-- "RSD   -5", and more than the buffer takes.
abbrev negative_header : List ℕ
negative_header = b'R' ∷ b'S' ∷ b'D' ∷ b' ' ∷ b' ' ∷ b' ' ∷ b'-' ∷ b'5' ∷ []

announced-negative_header : announced negative_header ≡ some (negsuc 4)
unfolding announced number scan
announced-negative_header = refl

abbrev accepted : Connection
accepted = record { socket = 4; ctl_socket = 5; serv_ptr = pos 0; identity = [] }

handle_ctl_request_overruns_example :
    (handle_ctl_request
      (message_pass 8 1000 (pos 0) taken ∷ [])
      accepted
      (negative_header ++ replicate 258 65)).end
    ≡ overrun
handle_ctl_request_overruns_example =
    handle_ctl_request_overruns 8 1000 (pos 0) taken [] accepted negative_header (replicate 258 65)
      4 (omega arith) (omega arith) refl announced-negative_header (omega arith) (omega arith)
