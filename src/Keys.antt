-- ===== src/Keys.antt =====
-- The byte orders of keys and IVs between KEY_PROG messages and the registers of an Intel root
-- complex: teeio-validator/library/helperlib/utils.c. A buffer is the list of its dwords, a dword
-- the four bytes in the order of memory; the two buffers of a call do not overlap.
pub mod Order
use tee_io_validator.Common.{
  ℕ, zero, suc, ◌+◌, ◌-◌, ◌/◌, ◌%◌, Bool, true, false, not, ◌||◌, List, [], ◌∷◌, Option, none, some,
  Outcome, returns, asserts, faults, ◌>>=◌, teeio_assert, ltb, ◌==◌, if◌then◌else◌, length,
  get_elem?, modify,
}

pub record Dword : Type 0 where
  pub byte_0 : ℕ
  pub byte_1 : ℕ
  pub byte_2 : ℕ
  pub byte_3 : ℕ

-- `*((uint8_t *)dw + i)`.
unfoldable pub byte : ℕ → Dword → Outcome ℕ
byte zero w = returns w.byte_0
byte (suc zero) w = returns w.byte_1
byte (suc (suc zero)) w = returns w.byte_2
byte (suc (suc (suc zero))) w = returns w.byte_3
byte _ w = faults

unfoldable pub set_byte : ℕ → ℕ → Dword → Outcome Dword
set_byte zero b w = returns (record w { byte_0 = b })
set_byte (suc zero) b w = returns (record w { byte_1 = b })
set_byte (suc (suc zero)) b w = returns (record w { byte_2 = b })
set_byte (suc (suc (suc zero))) b w = returns (record w { byte_3 = b })
set_byte _ b w = faults

-- One turn of the loop of `revert_bytes_inside_dw`.
unfoldable pub swap_bytes : ℕ → Dword → Outcome Dword
swap_bytes i w = byte i w >>= λ tmp.
    byte (3 - i) w >>= λ other. set_byte i other w >>= λ w'. set_byte (3 - i) tmp w'

unfoldable pub revert_bytes_inside_dw : Dword → Outcome Dword
revert_bytes_inside_dw w = swap_bytes 0 w >>= λ w'. swap_bytes 1 w'

-- `dest[to] = src[from]`; outside of either buffer it is undefined.
unfoldable pub copy_dw : List Dword → ℕ → List Dword → ℕ → Outcome (List Dword)
copy_dw src from dest to = elim (get_elem? src from) [
  | none ↦ faults
  | some w ↦ if ltb to (length dest) then returns (modify dest to (λ _. w)) else faults
]

-- The sizes that both functions refuse.
abbrev pub sizes_bad : ℕ → ℕ → Bool
sizes_bad key_prog_keys_size rp_keys_size =
    (key_prog_keys_size == 0)
    || (not (key_prog_keys_size == rp_keys_size) || not (key_prog_keys_size % 4 == 0))

-- The loop from `i`, with `left` turns to come.
unfoldable pub pcie_keys_loop : ℕ → ℕ → ℕ → List Dword → List Dword → Outcome (List Dword)
pcie_keys_loop zero i size_in_dw src dest = returns dest
pcie_keys_loop (suc left) i size_in_dw src dest =
    copy_dw src (size_in_dw - i - 1) dest i >>= λ dest'.
    pcie_keys_loop left (i + 1) size_in_dw src dest'

-- `none` is NULL. The return value is true and the registers are what `rp_keys` holds at the end.
unfoldable pub pcie_construct_rp_keys :
    Option (List Dword) → ℕ → Option (List Dword) → ℕ → Outcome (Bool × List Dword)
pcie_construct_rp_keys none size rp_keys rp_size = asserts
pcie_construct_rp_keys (some keys) size none rp_size = asserts
pcie_construct_rp_keys (some keys) size (some rp_keys) rp_size =
    if sizes_bad size rp_size
    then asserts
    else (pcie_keys_loop (size / 4) 0 (size / 4) keys rp_keys >>= λ dest. returns (true, dest))

-- `revert_bytes_inside_dw(dest + i)`.
unfoldable pub revert_at : List Dword → ℕ → Outcome (List Dword)
revert_at dest i = elim (get_elem? dest i) [
  | none ↦ faults
  | some w ↦ revert_bytes_inside_dw w >>= λ w'. returns (modify dest i (λ _. w'))
]

unfoldable pub cxl_keys_loop : ℕ → ℕ → List Dword → List Dword → Outcome (List Dword)
cxl_keys_loop zero i src dest = returns dest
cxl_keys_loop (suc left) i src dest = copy_dw src i dest i >>= λ dest'.
    revert_at dest' i >>= λ dest''. cxl_keys_loop left (i + 1) src dest''

unfoldable pub cxl_construct_rp_keys :
    Option (List Dword) → ℕ → Option (List Dword) → ℕ → Outcome (Bool × List Dword)
cxl_construct_rp_keys none size rp_keys rp_size = asserts
cxl_construct_rp_keys (some keys) size none rp_size = asserts
cxl_construct_rp_keys (some keys) size (some rp_keys) rp_size =
    if sizes_bad size rp_size
    then asserts
    else (cxl_keys_loop (size / 4) 0 keys rp_keys >>= λ dest. returns (true, dest))

-- The IV of CXL: the last two of its three dwords, the last first.
unfoldable pub cxl_construct_rp_iv : List Dword → ℕ → List Dword → ℕ → Outcome (Bool × List Dword)
cxl_construct_rp_iv key_prog_iv key_prog_iv_size rp_iv rp_iv_size =
    teeio_assert (key_prog_iv_size == 12) >>= λ _. teeio_assert (rp_iv_size == 8) >>= λ _.
    copy_dw key_prog_iv 2 rp_iv 0 >>= λ dest.
    copy_dw key_prog_iv 1 dest 1 >>= λ dest'. returns (true, dest')
