-- ===== src/Backend/Tests.antt =====
-- Runs of ramdisk_backend.c on small disks, and the theorems at concrete inputs.
use ddr_direct_storage.Base.{
  ℕ, ◌+◌, ◌≤◌, ◌≡◌, refl, ap, sym, none, length, ◌⊎◌, true, false, some, [], ◌∷◌, arith, ok, err,
  Bytes, slice, zeros,
}
use ddr_direct_storage.Base.Errno.{einval, erange}
use ddr_direct_storage.Backend.{
  Backend, validate_block_size, ramdisk_backend_create, ramdisk_backend_validate_range,
  ramdisk_backend_read, ramdisk_backend_write, ramdisk_backend_zero,
}
use ddr_direct_storage.Backend.Range.{Holds, validate_range_lem, create-Holds}
use ddr_direct_storage.Backend.Reading.{memory_of, ramdisk_backend_read_lem}
use ddr_direct_storage.Backend.RoundTrip.{Reads, write-Reads, zero-Reads}

abbrev memory : Bytes
memory = 1 ∷ 2 ∷ 3 ∷ 4 ∷ 5 ∷ 6 ∷ 7 ∷ 8 ∷ []

abbrev disk : Backend
disk = record { base = some memory; size = 8; block_size = 512; locked = false; initialized = true }

disk-Holds : Holds disk memory
disk-Holds = (refl, refl, refl)

block_sizes :
    (validate_block_size 512 ≡ ok)
    × (validate_block_size 4096 ≡ ok)
    × (validate_block_size 1048576 ≡ ok)
    × (validate_block_size 0 ≡ err einval)
    × (validate_block_size 1000 ≡ err einval)
    × (validate_block_size 256 ≡ err einval)
    × (validate_block_size 2097152 ≡ err einval)
unfolding validate_block_size
block_sizes = (refl, refl, refl, refl, refl, refl, refl)

validate_range_lem_example : ramdisk_backend_validate_range disk 6 3 ≡ err erange
validate_range_lem_example = validate_range_lem disk memory 6 3 disk-Holds

disk-sized : (m : Bytes) → memory_of disk ≡ some m → length m ≡ 8
disk-sized m e = ap (λ o. elim o [ none ↦ 8 | some x ↦ length x ]) (sym e)

ramdisk_backend_read_lem_example :
    ramdisk_backend_read 0 disk 2 (some (zeros 4)) 3 ≡ some (ok, disk, some (3 ∷ 4 ∷ 5 ∷ 0 ∷ []))
ramdisk_backend_read_lem_example = ramdisk_backend_read_lem 0 disk 2 (some (zeros 4)) 3 disk-sized

write-Reads_example :
    (b' : Backend) × (ramdisk_backend_write 0 disk 2 (some (9 ∷ 8 ∷ [])) 2 ≡ some (ok, b'))
    × (b'.locked ≡ false)
    × Reads b' 2 (9 ∷ 8 ∷ [])
    × ((o n : ℕ) → (o + n ≤ 2) ⊎ (4 ≤ o) → o + n ≤ 8 → Reads b' o (slice memory o n))
write-Reads_example = write-Reads disk memory disk-Holds 2 (9 ∷ 8 ∷ []) (omega arith)

zero-Reads_example :
    (b' : Backend) × (ramdisk_backend_zero 0 disk 0 3 ≡ some (ok, b'))
    × (b'.locked ≡ false)
    × Reads b' 0 (zeros 3)
    × ((o n : ℕ) → (o + n ≤ 0) ⊎ (3 ≤ o) → o + n ≤ 8 → Reads b' o (slice memory o n))
zero-Reads_example = zero-Reads disk memory disk-Holds 0 3 (omega arith)

good_block : validate_block_size 512 ≡ ok
unfolding validate_block_size
good_block = refl

create-Holds_example :
    (b : Backend) × (ramdisk_backend_create 1000 0 3 512 (some (7 ∷ 7 ∷ 7 ∷ [])) ≡ some (ok, b))
    × Holds b (zeros 3)
    × (b.locked ≡ false)
    × (b.block_size ≡ 512)
create-Holds_example =
    create-Holds 1000 3 512 (7 ∷ 7 ∷ 7 ∷ []) (omega arith) (omega arith) good_block refl
