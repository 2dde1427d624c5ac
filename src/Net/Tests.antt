-- ===== src/Net/Tests.antt =====
-- The byte-order theorems at concrete numbers.
use cpp_torrent.Base.{◌≡◌, refl, [], ◌∷◌, arith}
use cpp_torrent.Net.{little, put, write_all}
use cpp_torrent.Net.Layout.{write_all-fields}

port_bytes : put little 2 6881 ≡ 26 ∷ 225 ∷ []
unfolding put
port_bytes = refl

filled_buffer : write_all (9 ∷ 9 ∷ 9 ∷ []) ((0, 1 ∷ 2 ∷ []) ∷ (2, 3 ∷ []) ∷ []) ≡ 1 ∷ 2 ∷ 3 ∷ []
filled_buffer =
    write_all-fields (9 ∷ 9 ∷ 9 ∷ []) ((0, 1 ∷ 2 ∷ []) ∷ (2, 3 ∷ []) ∷ []) (omega arith)
      (omega arith)
