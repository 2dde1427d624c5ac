-- ===== src/Net.antt =====
-- Byte order and fixed-layout buffers: `host_to_network_order` and `network_to_host_order` of
-- src/Utils.hpp, and the copies of numbers into and out of byte buffers that the messages are made of.
pub mod Order
pub mod Layout
mod Tests
use mathlib.Core.List.{reverse}
use cpp_torrent.Base.{
  ℕ, zero, suc, ◌+◌, ◌*◌, ◌/◌, ◌%◌, List, [], ◌∷◌, ◌++◌, length, take, drop, splice,
}

-- `std::endian::native`.
pub data Endian : Type 0 where
  little big : Endian

-- The bytes of a `k`-byte number, lowest first.
unfoldable pub le_bytes : ℕ → ℕ → List ℕ
le_bytes zero n = []
le_bytes (suc k) n = (n % 256) ∷ le_bytes k (n / 256)

unfoldable pub from_le : List ℕ → ℕ
from_le [] = 0
from_le (b ∷ bs) = b + 256 * from_le bs

-- `std::byteswap` on `k` bytes.
unfoldable pub byteswap : ℕ → ℕ → ℕ
unfolding le_bytes from_le
byteswap k n = from_le (reverse (le_bytes k n))

unfoldable pub host_to_network_order : Endian → ℕ → ℕ → ℕ
unfolding byteswap
host_to_network_order big k v = v
host_to_network_order little k v = byteswap k v

unfoldable pub network_to_host_order : Endian → ℕ → ℕ → ℕ
unfolding host_to_network_order
network_to_host_order e k v = host_to_network_order e k v

-- The bytes of a number as they lie in the host's memory, and the number read from them.
unfoldable pub to_memory : Endian → ℕ → ℕ → List ℕ
unfolding le_bytes
to_memory little k v = le_bytes k v
to_memory big k v = reverse (le_bytes k v)

unfoldable pub from_memory : Endian → List ℕ → ℕ
unfolding from_le
from_memory little bs = from_le bs
from_memory big bs = from_le (reverse bs)

-- A number copied to a buffer in network order.
unfoldable pub put : Endian → ℕ → ℕ → List ℕ
unfolding host_to_network_order to_memory
put e k v = to_memory e k (host_to_network_order e k v)

-- A number copied from a buffer and brought to host order.
unfoldable pub get : Endian → ℕ → List ℕ → ℕ
unfolding network_to_host_order from_memory
get e k bs = network_to_host_order e k (from_memory e bs)

-- Copies to a buffer, each at its offset, one after the other.
unfoldable pub write_all : List ℕ → List (ℕ × List ℕ) → List ℕ
write_all buffer [] = buffer
write_all buffer ((offset, bytes) ∷ ws) = write_all (splice buffer offset bytes) ws
