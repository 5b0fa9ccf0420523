-- ===== src/Cluster.antt =====
-- wings/cluster.py: the frames on the connection to the router.
pub mod Receiving
pub mod Frames
use pywings.Prelude.{
  ℕ, zero, suc, ◌+◌, ◌-◌, ◌*◌, ◌/◌, ◌%◌, ◌^◌, Bool, true, false, Option, none, some, List, [], ◌∷◌,
  ◌++◌, length, take, drop, ltb, ◌==◌, if◌then◌else◌,
}
use Prim.Native.Nat.{min, max}

-- A socket: the bytes that are still to come before the other side closes it, and how many of them the
-- next calls of `recv` find.
pub record Socket : Type 0 where
  pub incoming : List ℕ
  pub sizes : List ℕ

abbrev pub found : ℕ → List ℕ → ℕ
found n [] = n
found n (x ∷ xs) = min n (max 1 x)

abbrev pub later : List ℕ → List ℕ
later [] = []
later (x ∷ xs) = xs

-- sock.recv(n), for n above 0: at least one byte and at most n, or none once the socket is closed.
unfoldable pub recv : ℕ → Socket → List ℕ × Socket
recv n s = (
  take (found n s.sizes) s.incoming,
  record { incoming = drop (found n s.sizes) s.incoming; sizes = later s.sizes },
)

-- The loop of `recv_exact` with `missing` bytes to go; each round takes a byte at least.
unfoldable pub recv_missing : ℕ → ℕ → List ℕ → Socket → Option (List ℕ) × Socket
recv_missing fuel zero buffer s = (some buffer, s)
recv_missing zero (suc missing) buffer s = (none, s)
recv_missing (suc fuel) (suc missing) buffer s =
    let (chunk, s') = recv (min 65536 (suc missing)) s in
    elim chunk [
      | [] ↦ (none, s')
      | b ∷ bs ↦ recv_missing fuel (suc missing - length (b ∷ bs)) (buffer ++ (b ∷ bs)) s'
    ]

unfoldable pub recv_exact : ℕ → Socket → Option (List ℕ) × Socket
recv_exact n s = recv_missing n n [] s

-- struct.pack("!I", n) and struct.unpack, of a number below 2 ^ 32.
unfoldable pub pack : ℕ → List ℕ
pack n = n / 16777216 % 256 ∷ n / 65536 % 256 ∷ n / 256 % 256 ∷ n % 256 ∷ []

unfoldable pub unpack : List ℕ → ℕ
unpack [] = 0
unpack (a ∷ as') = a * 256 ^ length as' + unpack as'

-- What `recv_frame` returns: (None, None), a frame, or the ValueError of bytes that hold no JSON.
pub data Received (Meta : Type 0) : Type 0 where
  closed malformed : Received Meta
  frame : Meta → List ℕ → Received Meta

-- `dumps` and `loads` are those of `json`, with the coding in UTF-8.
module _ {Meta : Type 0} (dumps : Meta → List ℕ) (loads : List ℕ → Option Meta) where
  -- `send_frame`: the bytes that are sent; none is the struct.error of a frame that is too long.
  unfoldable pub send_frame : Meta → List ℕ → Option (List ℕ)
  send_frame m payload =
      let total = 4 + length (dumps m) + length payload in
      if ltb total 4294967296
      then some (pack total ++ (pack (length (dumps m)) ++ (dumps m ++ payload)))
      else none

  unfoldable pub finish_frame : List ℕ → List ℕ → Received Meta
  finish_frame meta_bytes payload = elim (loads meta_bytes) [
    | none ↦ malformed
    | some m ↦ frame m payload
  ]

  -- A part of a frame that does not arrive whole ends it.
  abbrev pub after :
      Option (List ℕ) × Socket → (List ℕ → Socket → Received Meta × Socket) → Received Meta × Socket
  after (none, s) f = (closed, s)
  after (some bs, s) f = f bs s

  unfoldable pub recv_payload : ℕ → List ℕ → Socket → Received Meta × Socket
  recv_payload zero meta_bytes s = (finish_frame meta_bytes [], s)
  recv_payload (suc n) meta_bytes s =
      after (recv_exact (suc n) s) (λ payload s'. (finish_frame meta_bytes payload, s'))

  unfoldable pub recv_body : ℕ → ℕ → Socket → Received Meta × Socket
  recv_body total meta_len s =
      after (recv_exact meta_len s)
        (λ meta_bytes s'. recv_payload (total - 4 - meta_len) meta_bytes s')

  unfoldable pub recv_frame : Socket → Received Meta × Socket
  recv_frame s =
      after (recv_exact 8 s) (λ head s'. recv_body (unpack (take 4 head)) (unpack (drop 4 head)) s')
