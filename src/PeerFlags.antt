-- ===== src/PeerFlags.antt =====
-- core/husarnet/peer_flags.h and peer_flags.cpp: binary flags in a uint64_t.
use husarnet.Common.{ℕ, Bool, ◌&&◌, not, ◌==◌, bit_or}

pub data PeerFlag : Type 0 where
  supports_flags compression : PeerFlag

-- `_value`
unfoldable pub value : PeerFlag → ℕ
value supports_flags = 1
value compression = 2

-- `flags |= flag._value`
unfoldable pub set_flag : ℕ → PeerFlag → ℕ
unfolding value
set_flag flags flag = bit_or flags (value flag)

-- `return flags && flag._value`: the logical `&&`.
unfoldable pub check_flag : ℕ → PeerFlag → Bool
unfolding value
check_flag flags flag = not (flags == 0) && not (value flag == 0)

-- `PeerFlags()`
unfoldable pub default_flags : ℕ
unfolding set_flag
default_flags = set_flag 0 supports_flags
