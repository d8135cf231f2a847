-- ===== src/Client/Timeout/Tests.antt =====
-- Examples of the timeout header (crates/grpc-quic-client/src/channel.rs).
use grpc_quic_rs.Common.{◌*◌, ◌<◌, [], ◌∷◌, some, codes, ◌≡◌, refl, arith}
use grpc_quic_rs.Client.Timeout.{parse_grpc_timeout, split_last}
use grpc_quic_rs.Client.Timeout.Meaning.{parse-conforming, parse-Reads, Reads, hours_go_round}

-- "15S"
parse-conforming_example : parse_grpc_timeout (codes "15S") ≡ some 15000000000
parse-conforming_example =
    parse-conforming b'1' (b'5' ∷ []) b'S' 1000000000 refl
      ((omega arith, omega arith), ((omega arith, omega arith), tt)) (omega arith)

parse-Reads_example : Reads (codes "+7") b'u' 1000 7000
unfolding parse_grpc_timeout split_last
parse-Reads_example = parse-Reads b'+' (codes "7u") 7000 refl

-- "5124095576030432H" asks for 584 thousand million years and gives 3584 seconds.
hours_go_round_example :
    (parse_grpc_timeout (codes "5124095576030432H") ≡ some (3584 * 1000000000))
    × (3584 * 1000000000 < 5124095576030432 * 3600000000000)
hours_go_round_example =
    hours_go_round b'5' (codes "124095576030432") (ground arith) (omega arith) (omega arith)
