-- ===== src/Loader/Plan.antt =====
-- webapp/api/lib/deploy-builder.ts: the plan of a deployment, the program cut into chunks. The digest,
-- the key pair and base64 are parameters.
use multi_delegator.Base.{
  ℕ, zero, suc, ◌+◌, ◌-◌, ◌*◌, ◌/◌, String, List, [], ◌∷◌, ◌++◌, length, slice,
}
use multi_delegator.Base.Result.{Result, ok, ◌>>=◌}
use multi_delegator.Loader.{chunk_size}

pub record DeployPlan : Type 0 where
  pub buffer_keypair : List ℕ
  pub buffer_address : String
  pub chunks : List String
  pub total_chunks : ℕ
  pub program_address : String
  pub so_hash : String
  pub so_size : ℕ

-- What the platform gives: the random private key with its public key, the digest, base64 and the
-- address of a public key.
pub record Platform : Type 0 where
  pub private_key : List ℕ
  pub public_key : List ℕ
  pub sha256_hex : List ℕ → String
  pub to_base64 : List ℕ → String
  pub address_from_public_key : List ℕ → Result String

-- `Math.ceil(soBytes.length / CHUNK_SIZE)`
abbrev pub total_chunks_of : ℕ → ℕ
total_chunks_of so_size = (so_size + (chunk_size - 1)) / chunk_size

-- `soBytes.slice(offset, offset + CHUNK_SIZE)` at `offset = i * CHUNK_SIZE`
abbrev pub chunk_at : List ℕ → ℕ → List ℕ
chunk_at so_bytes i = slice (i * chunk_size) (i * chunk_size + chunk_size) so_bytes

module _ (os : Platform) where
  -- the loop from `i` on, with `remaining` rounds left
  unfoldable pub chunks_from : (remaining : ℕ) → List ℕ → ℕ → List String
  chunks_from zero so_bytes i = []
  chunks_from (suc remaining) so_bytes i =
      os.to_base64 (chunk_at so_bytes i) ∷ chunks_from remaining so_bytes (i + 1)

  unfoldable pub chunk_so_bytes : List ℕ → List String
  unfolding chunks_from
  chunk_so_bytes so_bytes = chunks_from (total_chunks_of (length so_bytes)) so_bytes 0

  -- `[priv(32) | pub(32)]`
  unfoldable pub generate_keypair_bytes : List ℕ
  generate_keypair_bytes = os.private_key ++ os.public_key

  -- the plan that both builders return, at the address of the buffer
  abbrev pub plan_at : List ℕ → (program_address buffer_address : String) → DeployPlan
  unfolding chunk_so_bytes generate_keypair_bytes
  plan_at so_bytes program_address buffer_address = record {
    buffer_keypair = generate_keypair_bytes;
    buffer_address = buffer_address;
    chunks = chunk_so_bytes so_bytes;
    total_chunks = length (chunk_so_bytes so_bytes);
    program_address = program_address;
    so_hash = os.sha256_hex so_bytes;
    so_size = length so_bytes;
  }

  unfoldable pub build_deploy_plan : List ℕ → String → Result DeployPlan
  unfolding chunk_so_bytes generate_keypair_bytes
  build_deploy_plan so_bytes program_address = do
    buffer_address ← os.address_from_public_key os.public_key
    ok (plan_at so_bytes program_address buffer_address)

  unfoldable pub build_upgrade_plan : List ℕ → String → Result DeployPlan
  unfolding chunk_so_bytes generate_keypair_bytes
  build_upgrade_plan so_bytes program_address = do
    buffer_address ← os.address_from_public_key os.public_key
    ok (plan_at so_bytes program_address buffer_address)
