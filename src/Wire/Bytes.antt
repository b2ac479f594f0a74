-- ===== src/Wire/Bytes.antt =====
-- Byte order: HostToBe32 and BeToHost32 of include/hiim/wire/header.hpp, HostToBe64 and BeToHost64
-- of include/hiim/im/header.hpp, and the bytes of an integer in the memory of a host.
use hi_im_core.Prelude.{
  List, [], ap₂, arith, drop, get_or, refl, ℕ, ◌%◌, ◌*◌, ◌++◌, ◌+◌, ◌/◌, ◌<◌, ◌^◌, ◌∙◌, ◌∷◌, ◌≡◌,
}

-- __BYTE_ORDER__ of the host for which the program is compiled.
pub data Endian : Type 0 where
  little big : Endian

-- The octets of a number, least significant first.
abbrev pub octet : ℕ → ℕ → ℕ
octet k v = v / 256 ^ k % 256

-- The bytes of a uint32_t in memory, as memcpy reads them.
unfoldable pub store32 : Endian → ℕ → List ℕ
store32 little v = octet 0 v ∷ octet 1 v ∷ octet 2 v ∷ octet 3 v ∷ []
store32 big v = octet 3 v ∷ octet 2 v ∷ octet 1 v ∷ octet 0 v ∷ []

-- The uint32_t that memcpy writes from the first four bytes.
unfoldable pub load32 : Endian → List ℕ → ℕ
load32 little bs =
    get_or bs 0 0 + get_or bs 1 0 * 2 ^ 8 + get_or bs 2 0 * 2 ^ 16 + get_or bs 3 0 * 2 ^ 24
load32 big bs =
    get_or bs 0 0 * 2 ^ 24 + get_or bs 1 0 * 2 ^ 16 + get_or bs 2 0 * 2 ^ 8 + get_or bs 3 0

-- __builtin_bswap32
unfoldable pub bswap32 : ℕ → ℕ
bswap32 v = octet 0 v * 2 ^ 24 + octet 1 v * 2 ^ 16 + octet 2 v * 2 ^ 8 + octet 3 v

unfoldable pub host_to_be32 : Endian → ℕ → ℕ
unfolding bswap32
host_to_be32 little v = bswap32 v
host_to_be32 big v = v

unfoldable pub be_to_host32 : Endian → ℕ → ℕ
unfolding host_to_be32
be_to_host32 e v = host_to_be32 e v

-- The protocol's order of a 32-bit field: most significant first.
abbrev pub be32 : ℕ → List ℕ
be32 v = octet 3 v ∷ octet 2 v ∷ octet 1 v ∷ octet 0 v ∷ []

pub store32-host_to_be32 : (e : Endian) (v : ℕ) → store32 e (host_to_be32 e v) ≡ be32 v
unfolding store32 host_to_be32
store32-host_to_be32 little v =
    ap₂ ◌∷◌ (omega arith)
      (ap₂ ◌∷◌ (omega arith) (ap₂ ◌∷◌ (omega arith) (ap₂ ◌∷◌ (omega arith) refl)))
store32-host_to_be32 big v = refl

pub be_to_host32-load32 :
    (e : Endian) (v : ℕ) (rest : List ℕ)
    → v < 2 ^ 32
    → be_to_host32 e (load32 e (be32 v ++ rest)) ≡ v
unfolding be_to_host32 load32
be_to_host32-load32 little v rest h = omega arith
be_to_host32-load32 big v rest h = omega arith

-- What is decoded fits a uint32_t, whatever the bytes.
pub be_to_host32-lt : (e : Endian) (v : ℕ) → v < 2 ^ 32 → be_to_host32 e v < 2 ^ 32
unfolding be_to_host32
be_to_host32-lt little v h = omega arith
be_to_host32-lt big v h = h

-- A uint64_t in memory is its two halves in the host's order.
unfoldable pub store64 : Endian → ℕ → List ℕ
store64 little v = store32 little (v % 2 ^ 32) ++ store32 little (v / 2 ^ 32)
store64 big v = store32 big (v / 2 ^ 32) ++ store32 big (v % 2 ^ 32)

unfoldable pub load64 : Endian → List ℕ → ℕ
load64 little bs = load32 little bs + load32 little (drop 4 bs) * 2 ^ 32
load64 big bs = load32 big bs * 2 ^ 32 + load32 big (drop 4 bs)

-- __builtin_bswap64
unfoldable pub bswap64 : ℕ → ℕ
unfolding bswap32
bswap64 v = bswap32 (v % 2 ^ 32) * 2 ^ 32 + bswap32 (v / 2 ^ 32)

unfoldable pub host_to_be64 : Endian → ℕ → ℕ
unfolding bswap64
host_to_be64 little v = bswap64 v
host_to_be64 big v = v

unfoldable pub be_to_host64 : Endian → ℕ → ℕ
unfolding host_to_be64
be_to_host64 e v = host_to_be64 e v

abbrev pub be64 : ℕ → List ℕ
be64 v = be32 (v / 2 ^ 32) ++ be32 (v % 2 ^ 32)

bswap32-lt : (v : ℕ) → bswap32 v < 2 ^ 32
unfolding bswap32
bswap32-lt v = omega arith

pub store64-host_to_be64 : (e : Endian) (v : ℕ) → store64 e (host_to_be64 e v) ≡ be64 v
unfolding store64 host_to_be64 host_to_be32 store32
store64-host_to_be64 little v =
    rw (low, high)
      (ap₂ ◌++◌ (store32-host_to_be32 little (v / 2 ^ 32))
        (store32-host_to_be32 little (v % 2 ^ 32)))
  where
    low : (bswap32 (v % 2 ^ 32) * 2 ^ 32 + bswap32 (v / 2 ^ 32)) % 2 ^ 32 ≡ bswap32 (v / 2 ^ 32)
    low = omega (arith, bswap32-lt (v / 2 ^ 32))

    high : (bswap32 (v % 2 ^ 32) * 2 ^ 32 + bswap32 (v / 2 ^ 32)) / 2 ^ 32 ≡ bswap32 (v % 2 ^ 32)
    high = omega (arith, bswap32-lt (v / 2 ^ 32))
store64-host_to_be64 big v = refl

load32-be32_little : (v : ℕ) (rest : List ℕ) → load32 little (be32 v ++ rest) ≡ bswap32 v
unfolding load32 bswap32
load32-be32_little v rest = omega arith

bswap32-bswap32 : (v : ℕ) → v < 2 ^ 32 → bswap32 (bswap32 v) ≡ v
unfolding bswap32
bswap32-bswap32 v h = omega arith

bswap64_halves :
    (hi lo : ℕ)
    → hi < 2 ^ 32
    → lo < 2 ^ 32
    → bswap64 (bswap32 hi + bswap32 lo * 2 ^ 32) ≡ hi * 2 ^ 32 + lo
bswap64_halves hi lo p q =
    unfold bswap64 in rw (low, high, bswap32-bswap32 hi p, bswap32-bswap32 lo q)
  where
    low : (bswap32 hi + bswap32 lo * 2 ^ 32) % 2 ^ 32 ≡ bswap32 hi
    low = omega (arith, bswap32-lt hi)

    high : (bswap32 hi + bswap32 lo * 2 ^ 32) / 2 ^ 32 ≡ bswap32 lo
    high = omega (arith, bswap32-lt hi)

pub be_to_host64-load64 :
    (e : Endian) (v : ℕ) (rest : List ℕ)
    → v < 2 ^ 64
    → be_to_host64 e (load64 e (be64 v ++ rest)) ≡ v
unfolding be_to_host64 load64
be_to_host64-load64 little v rest h =
    rw
      (
        load32-be32_little (v / 2 ^ 32) (be32 (v % 2 ^ 32) ++ rest),
        load32-be32_little (v % 2 ^ 32) rest,
      )
      (bswap64_halves (v / 2 ^ 32) (v % 2 ^ 32) (omega arith) (omega arith) ∙ omega arith)
be_to_host64-load64 big v rest h =
    rw
      (
        word (v / 2 ^ 32) (be32 (v % 2 ^ 32) ++ rest) (omega arith),
        word (v % 2 ^ 32) rest (omega arith),
      )
      (omega arith)
  where
    word : (w : ℕ) (r : List ℕ) → w < 2 ^ 32 → load32 big (be32 w ++ r) ≡ w
    word w r hw = unfold be_to_host32 in be_to_host32-load32 big w r hw

pub load32-be32 :
    (e : Endian) (v : ℕ) (rest : List ℕ) → v < 2 ^ 32 → load32 e (be32 v ++ rest) ≡ host_to_be32 e v
unfolding load32 host_to_be32
load32-be32 little v rest h = omega arith
load32-be32 big v rest h = omega arith

pub be_to_host32-host_to_be32 :
    (e : Endian) (v : ℕ) → v < 2 ^ 32 → be_to_host32 e (host_to_be32 e v) ≡ v
unfolding be_to_host32
be_to_host32-host_to_be32 little v h = bswap32-bswap32 v h
be_to_host32-host_to_be32 big v h = refl

-- Four bytes make a uint32_t, in either order.
pub load32-lt :
    (e : Endian) (bs : List ℕ)
    → ((i : ℕ) → get_or bs i 0 < 256)
    → be_to_host32 e (load32 e bs) < 2 ^ 32
unfolding load32 be_to_host32
load32-lt little bs h = omega (arith, h 0, h 1, h 2, h 3)
load32-lt big bs h = omega (arith, h 0, h 1, h 2, h 3)
