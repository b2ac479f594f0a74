-- ===== src/Bench/Laws.antt =====
-- What the benchmark client sends.
use hi_im_core.Im
use hi_im_core.Prelude.{
  Bool, List, ap, arith, false, if◌then◌else◌, max, memcpy, refl, replicate, replicate-add, true, ℕ,
  ◌++◌, ◌-◌, ◌∙◌, ◌∷◌, ◌≡◌,
}
use hi_im_core.Bench.{make_business_payload}
use hi_im_core.Wire.Bytes.{Endian, be32, be_to_host32, big, little, load32, store32-host_to_be32}

zero_read : (e : Endian) (rest : List ℕ) → be_to_host32 e (load32 e (0 ∷ 0 ∷ 0 ∷ 0 ∷ rest)) ≡ 0
unfolding be_to_host32 load32
zero_read little rest = refl
zero_read big rest = refl

either_zero : (b : Bool) (x : ℕ) → x ≡ 0 → (if b then 0 else x) ≡ 0
either_zero true x h = refl
either_zero false x h = h

behind_zero :
    (e : Endian) (dest m : ℕ)
    → Im.read_dest_nid e
        (memcpy (memcpy (replicate 48 0 ++ replicate m 0) 0 (be32 0x030B)) 4 (be32 dest))
      ≡ 0
unfolding Im.read_dest_nid
behind_zero e dest m = either_zero _ _ (zero_read e _)

-- Whatever the size and the node asked for, the hub reads the node 0 in the benchmark's payload: the
-- node is written where the hub expects the length.
pub read_dest_nid-make_business_payload :
    (e : Endian) (payload_size dest_nid : ℕ)
    → Im.read_dest_nid e (make_business_payload e payload_size dest_nid) ≡ 0
unfolding make_business_payload
read_dest_nid-make_business_payload e payload_size dest_nid =
    rw (zeros, store32-host_to_be32 e 0x030B, store32-host_to_be32 e dest_nid)
      (behind_zero e dest_nid (max payload_size 48 - 48))
  where
    zeros :
        replicate {A = ℕ} (max payload_size 48) 0
        ≡ replicate 48 0 ++ replicate (max payload_size 48 - 48) 0
    zeros =
        ap (λ n. replicate {A = ℕ} n 0) (omega arith)
        ∙ replicate-add 48 (max payload_size 48 - 48) 0
