-- ===== src/Relayer/Handler/Supported.antt =====
-- The signers of the supported kinds.
use agent_allowance.Common.{
  String, Bool, true, false, ◌||◌, ◌&&◌, ◌≡◌, refl, List, [], ◌∷◌, ◌++◌, ◌===◌, All, includes,
  truthy, or_else, if◌then◌else◌, arith, eq_iff,
}
use agent_allowance.Relayer.Request.{NetworkConfig}
use agent_allowance.Relayer.Handler.{
  PluginApi, relayer_address, add_signer, signers_from, some_signers, handle_supported,
}

-- No two entries are equal.
abbrev pub Distinct : List String → Type 0
Distinct [] = Unit
Distinct (x ∷ xs) = (includes xs x ≡ false) × Distinct xs

abbrev Signers : Type 0
Signers = List (String × List String)

abbrev pub names : Signers → List String
names [] = []
names ((name, addresses) ∷ signers) = name ∷ names signers

-- Each network has one entry, and each entry lists no address twice.
abbrev pub IsGrouped : Signers → Type 0
IsGrouped signers =
    Distinct (names signers) × All (λ (entry : String × List String). Distinct entry.1) signers

includes-add_signer :
    (network address : String) (signers : Signers) (name : String)
    → includes (names (add_signer network address signers)) name
      ≡ (includes (names signers) name || network === name)
includes-add_signer network address [] name = ground arith
includes-add_signer network address ((n, addresses) ∷ signers) name =
    ground (arith, includes-add_signer network address signers name, eq_iff n network)

includes-end :
    (xs : List String) (x y : String) → includes (xs ++ (x ∷ [])) y ≡ (includes xs y || x === y)
includes-end [] x y = ground arith
includes-end (z ∷ xs) x y = ground (arith, includes-end xs x y)

Distinct-end :
    (xs : List String) (x : String)
    → Distinct xs
    → includes xs x ≡ false
    → Distinct (xs ++ (x ∷ []))
Distinct-end [] x h k = (refl, tt)
Distinct-end (y ∷ xs) x (new, h) k = (
  ground (arith, includes-end xs x y, eq_iff x y, eq_iff y x),
  Distinct-end xs x h (ground arith),
)

Distinct-added :
    (addresses : List String) (address : String)
    → Distinct addresses
    → Distinct (if includes addresses address then addresses else addresses ++ (address ∷ []))
Distinct-added addresses address h = chosen (includes addresses address) refl
  where
    chosen :
        (b : Bool)
        → includes addresses address ≡ b
        → Distinct (if b then addresses else addresses ++ (address ∷ []))
    chosen true e = h
    chosen false e = Distinct-end addresses address h e

add_signer-IsGrouped :
    (network address : String) (signers : Signers)
    → IsGrouped signers
    → IsGrouped (add_signer network address signers)
add_signer-IsGrouped network address [] h = ((refl, tt), ((refl, tt), tt))
add_signer-IsGrouped network address ((name, addresses) ∷ signers) ((new, others), (each, all)) =
    chosen (name === network) refl (add_signer-IsGrouped network address signers (others, all))
  where
    chosen :
        (b : Bool)
        → (name === network) ≡ b
        → IsGrouped (add_signer network address signers)
        → IsGrouped (
            if b
            then (
              name,
              (if includes addresses address then addresses else addresses ++ (address ∷ [])),
            )
              ∷ signers
            else (name, addresses) ∷ add_signer network address signers)
    chosen true e rest = ((new, others), (Distinct-added addresses address each, all))
    chosen false e (names_ok, entries_ok) = (
      (
        ground (
          arith,
          includes-add_signer network address signers name,
          eq_iff network name,
          eq_iff name network,
        ),
        names_ok,
      ),
      (each, entries_ok),
    )

-- The address is listed under the network.
abbrev pub listed : Signers → String → String → Bool
listed [] network address = false
listed ((name, addresses) ∷ signers) network address =
    name === network && includes addresses address || listed signers network address

listed-add_signer :
    (network address : String) (signers : Signers) (n a : String)
    → listed (add_signer network address signers) n a
      ≡ (listed signers n a || network === n && address === a)
listed-add_signer network address [] n a = ground arith
listed-add_signer network address ((name, addresses) ∷ signers) n a = ground (
  arith,
  listed-add_signer network address signers n a,
  includes-end addresses address a,
  eq_iff name network,
  eq_iff name n,
  eq_iff network n,
  eq_iff address a,
)

-- A network's relayer has this address, which is not empty.
abbrev pub signs : PluginApi → String → String → List NetworkConfig → Bool
signs api network address [] = false
signs api network address (config ∷ configs) =
    truthy (relayer_address api config)
      && config.network === network
      && or_else (relayer_address api config) "" === address
    || signs api network address configs

module _ (api : PluginApi) where
  signers_from-IsGrouped :
      (configs : List NetworkConfig) (signers : Signers)
      → IsGrouped signers
      → IsGrouped (signers_from api configs signers)
  signers_from-IsGrouped [] signers h = h
  signers_from-IsGrouped (config ∷ configs) signers h =
      chosen (truthy (relayer_address api config))
        (signers_from-IsGrouped configs (add_signer config.network address signers)
          (add_signer-IsGrouped config.network address signers h))
        (signers_from-IsGrouped configs signers h)
    where
      address : String
      address = or_else (relayer_address api config) ""

      chosen :
          (b : Bool)
          → IsGrouped (signers_from api configs (add_signer config.network address signers))
          → IsGrouped (signers_from api configs signers)
          → IsGrouped (
              if b
              then signers_from api configs (add_signer config.network address signers)
              else signers_from api configs signers)
      chosen true h1 h2 = h1
      chosen false h1 h2 = h2

  listed-signers_from :
      (configs : List NetworkConfig) (signers : Signers) (n a : String)
      → listed (signers_from api configs signers) n a
        ≡ (listed signers n a || signs api n a configs)
  listed-signers_from [] signers n a = ground arith
  listed-signers_from (config ∷ configs) signers n a =
      let address = or_else (relayer_address api config) "" in
      ground (
        arith,
        listed-signers_from configs (add_signer config.network address signers) n a,
        listed-signers_from configs signers n a,
        listed-add_signer config.network address signers n a,
      )

some_signers-eq : (signers : Signers) → or_else (some_signers signers) [] ≡ signers
some_signers-eq [] = refl
some_signers-eq (entry ∷ entries) = refl

-- The signers of `/supported` have one entry for each network, which lists no address twice; an address
-- is listed under a network exactly if it is that of the relayer of some configuration of the network,
-- and not empty.
pub handle_supported-IsGrouped :
    (api : PluginApi) (networks : List NetworkConfig)
    → IsGrouped (or_else (handle_supported api networks).signers [])
      × ((network address : String)
          → listed (or_else (handle_supported api networks).signers []) network address
            ≡ signs api network address networks)
unfolding handle_supported
handle_supported-IsGrouped api networks = rw (some_signers-eq (signers_from api networks [])) (
  signers_from-IsGrouped api networks [] (tt, tt),
  λ network address. listed-signers_from api networks [] network address,
)
