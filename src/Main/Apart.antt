-- ===== src/Main/Apart.antt =====
-- src/main.rs: the file and the key pair of a node, by its seed.
use simb.Prelude.{
  ℕ, ◌<◌, ◌≡◌, ◌≢◌, refl, sym, ap, ◌∙◌, [], ◌∷◌, Option, none, some, Str, text, arith,
}
use mathlib.Core.Logic.{◌↔◌}
use mathlib.Core.Option.{some-injective}
use mathlib.Core.List.{append_cancel_left, append_cancel_right}
use simb.Prelude.Result.{ok}
use simb.Interface.{Failures}
use simb.External.{System, Bytes}
use simb.Network.Swarm.{Libp2p}
use simb.Provider.{Replies}
use simb.Client.{Setup, ClientBuilder, execute_with_seed_nodes, default}
use simb.Prelude.Decimal.{decimal-injective}
use simb.Main.{Options, default_path, unwrap_or, seed_bytes, keypair_of, settings, main}

-- The byte by which a default path with a seed differs from the one without.
unfoldable fifth : Str → ℕ
fifth (a ∷ b ∷ c ∷ d ∷ x ∷ s) = x
fifth _ = 0

unfoldable first_byte : Str → ℕ
first_byte [] = 0
first_byte (b ∷ s) = b

abbrev IsU8 : Option ℕ → Type 0
IsU8 none = Unit
IsU8 (some n) = n < 256

default_path-injective :
    (a b : Option ℕ) → IsU8 a → IsU8 b → default_path a ≡ default_path b → a ≡ b
unfolding default_path fifth
default_path-injective none none fits fits' e = refl
default_path-injective none (some n) fits fits' e = absurd (omega (arith, ap fifth e))
default_path-injective (some m) none fits fits' e = absurd (omega (arith, ap fifth e))
default_path-injective (some m) (some n) fits fits' e = ap some (
    decimal-injective m n (omega arith) (omega arith)
      (append_cancel_right _ _ (text ".redb") (append_cancel_left (text "./db-") _ _ e)))

module _ {F : Failures} {net : Libp2p F} {sys : System} (setup : Setup net sys)
    (ed25519_from_bytes : Bytes → Option setup.behaviours.Keypair)
    (unused generated : setup.behaviours.Keypair) where
  settings_lem :
      (opts : Options net.Multiaddr) (x : ClientBuilder setup)
      → settings setup ed25519_from_bytes unused generated opts ≡ ok x
      → (x.db_path ≡ unwrap_or (default_path opts.seed) opts.db_path)
        × (keypair_of setup ed25519_from_bytes unused generated opts.seed ≡ ok x.keypair)
  unfolding settings default
  settings_lem opts x e = (ground arith, ground arith)

  keypair-seed :
      (seed : ℕ) (k : setup.behaviours.Keypair)
      → keypair_of setup ed25519_from_bytes unused generated (some seed) ≡ ok k
      → ed25519_from_bytes (seed_bytes seed) ≡ some k
  unfolding keypair_of
  keypair-seed seed k e = ground arith

  main_lem :
      (opts : Options net.Multiaddr) (x : ClientBuilder setup) (replies : Replies net (Unit {0}))
      → settings setup ed25519_from_bytes unused generated opts ≡ ok x
      → main setup ed25519_from_bytes unused generated opts replies
        ≡ execute_with_seed_nodes setup x opts.peers replies
  unfolding main
  main_lem opts x replies e = rw (e, main) refl

seed_bytes-injective : (m n : ℕ) → seed_bytes m ≡ seed_bytes n → m ≡ n
unfolding seed_bytes first_byte
seed_bytes-injective m n e = ap first_byte e

module _ {F : Failures} {net : Libp2p F} {sys : System} (setup : Setup net sys)
    (ed25519_from_bytes : Bytes → Option setup.behaviours.Keypair)
    (unique : (s t : Bytes) (k : setup.behaviours.Keypair)
      → ed25519_from_bytes s ≡ some k
      → ed25519_from_bytes t ≡ some k
      → s ≡ t) where
  -- Two nodes that are started with seeds, and without a path, open the same database file if and
  -- only if their seeds are equal, and have the same key pair if and only if their seeds are equal,
  -- whatever key pairs are generated, where a key pair is that of one text of bytes only; and the
  -- first opens another file than a node that is started without a seed and a path. Each is the
  -- node of its settings, with the peers of its options as seed nodes.
  pub nodes_apart :
      (a b : Options net.Multiaddr) (m n : ℕ)
      (unused unused' generated generated' : setup.behaviours.Keypair) (x y : ClientBuilder setup)
      (replies : Replies net (Unit {0}))
      → a.seed ≡ some m
      → b.seed ≡ some n
      → a.db_path ≡ none
      → b.db_path ≡ none
      → m < 256
      → n < 256
      → settings setup ed25519_from_bytes unused generated a ≡ ok x
      → settings setup ed25519_from_bytes unused' generated' b ≡ ok y
      → ((x.db_path ≡ y.db_path) ↔ (m ≡ n))
        × ((x.keypair ≡ y.keypair) ↔ (m ≡ n))
        × (x.db_path ≢ default_path none)
        × (main setup ed25519_from_bytes unused generated a replies
            ≡ execute_with_seed_nodes setup x a.peers replies)
        × (main setup ed25519_from_bytes unused' generated' b replies
            ≡ execute_with_seed_nodes setup y b.peers replies)
  nodes_apart a b m n unused unused' generated generated' x y replies seed seed' no_path no_path'
        fits fits' started started' =
      let (path, key) = settings_lem setup ed25519_from_bytes unused generated a x started in
      let (path', key') = settings_lem setup ed25519_from_bytes unused' generated' b y started' in
      let at : x.db_path ≡ default_path (some m) = path ∙ rw (no_path, seed) refl in
      let at' : y.db_path ≡ default_path (some n) = path' ∙ rw (no_path', seed') refl in
      let from : ed25519_from_bytes (seed_bytes m) ≡ some x.keypair =
        keypair-seed setup ed25519_from_bytes unused generated m x.keypair (rw (← seed) key) in
      let from' : ed25519_from_bytes (seed_bytes n) ≡ some y.keypair =
        keypair-seed setup ed25519_from_bytes unused' generated' n y.keypair (rw (← seed') key') in
      (
        (
          (λ same.
              some-injective _ _
                (default_path-injective (some m) (some n) fits fits' (sym at ∙ same ∙ at'))),
          (λ same. at ∙ ap (λ k. default_path (some k)) same ∙ sym at'),
        ),
        (
          (λ same. seed_bytes-injective m n (unique _ _ y.keypair (from ∙ ap some same) from')),
          (λ same.
              some-injective _ _
                (sym from ∙ ap (λ k. ed25519_from_bytes (seed_bytes k)) same ∙ from')),
        ),
        (λ same. cc (default_path-injective (some m) none fits tt (sym at ∙ same))),
        main_lem setup ed25519_from_bytes unused generated a x replies started,
        main_lem setup ed25519_from_bytes unused' generated' b y replies started',
      )
