-- ===== src/Relayer/Handler/Trusted.antt =====
-- What a configuration that the plugin accepts holds.
use agent_allowance.Common.{
  String, false, not, ◌≡◌, refl, sym, ◌∙◌, ap, subst, Option, none, some, List, [], ◌∷◌, ◌++◌,
  ◌===◌, map, All, includes, next, throw_if, >>=-eq-next, throw_if-next, next-injective, arith,
  eq_iff,
}
use agent_allowance.Policy.Manifest.{Manifest, assert_production_manifest}
use agent_allowance.Relayer.Request.{NetworkConfig}
use agent_allowance.Relayer.Handler.{
  PluginConfig, PluginError, profile_of, check_manifest, check_manifests, check_networks,
  assert_trusted_policy_configuration,
}

-- A manifest that the policy accepts, on the network of its configuration.
abbrev pub IsTrusted : String → Manifest → Type 0
IsTrusted network m =
    ((u : Unit {0}) × (assert_production_manifest {R = PluginError} m ≡ next u))
    × (m.network ≡ network)

abbrev pub AreTrusted : List NetworkConfig → Type 0
AreTrusted networks =
    All (λ (config : NetworkConfig). All (IsTrusted config.network) config.policy_manifests)
      networks

-- No text is among those seen before it.
abbrev pub AllNew : List String → List String → Type 0
AllNew seen [] = Unit
AllNew seen (x ∷ xs) = (includes seen x ≡ false) × AllNew (x ∷ seen) xs

abbrev push : List String → List String → List String
push seen [] = seen
push seen (x ∷ xs) = push (x ∷ seen) xs

abbrev pub profiles_of : List NetworkConfig → List String
profiles_of [] = []
profiles_of (config ∷ configs) = map profile_of config.policy_manifests ++ profiles_of configs

AllNew-++ :
    (seen xs ys : List String) → AllNew seen xs → AllNew (push seen xs) ys → AllNew seen (xs ++ ys)
AllNew-++ seen [] ys h k = k
AllNew-++ seen (x ∷ xs) ys (new, h) k = (new, AllNew-++ (x ∷ seen) xs ys h k)

check_manifest_sound :
    (network : String) (seen : List String) (m : Manifest) (out : List String)
    → check_manifest {R = PluginError} network seen m ≡ next out
    → IsTrusted network m × (includes seen (profile_of m) ≡ false) × (out ≡ profile_of m ∷ seen)
unfolding check_manifest
check_manifest_sound network seen m out h =
    let (u1, h1, k1) = >>=-eq-next (assert_production_manifest m) _ h in
    let (u2, h2, k2) = >>=-eq-next (throw_if (not (m.network === network)) _) _ k1 in
    let (u3, h3, k3) = >>=-eq-next (throw_if (includes seen (profile_of m)) _) _ k2 in
    let same = throw_if-next (not (m.network === network)) _ h2 in
    (
      ((u1, h1), ground (arith, eq_iff m.network network)),
      throw_if-next (includes seen (profile_of m)) _ h3,
      sym (next-injective k3),
    )

check_manifests_sound :
    (network : String) (seen : List String) (ms : List Manifest) (out : List String)
    → check_manifests {R = PluginError} network seen ms ≡ next out
    → All (IsTrusted network) ms
      × AllNew seen (map profile_of ms)
      × (out ≡ push seen (map profile_of ms))
check_manifests_sound network seen [] out h = (tt, tt, sym (next-injective h))
check_manifests_sound network seen (m ∷ ms) out h =
    let (seen', h1, k1) = >>=-eq-next (check_manifest network seen m) _ h in
    let (trusted, new, e) = check_manifest_sound network seen m seen' h1 in
    let (rest, fresh, e') = check_manifests_sound network seen' ms out k1 in
    (
      (trusted, rest),
      (new, subst (λ s. AllNew s (map profile_of ms)) e fresh),
      e' ∙ ap (λ s. push s (map profile_of ms)) e,
    )

check_networks_sound :
    (seen : List String) (networks : List NetworkConfig) (out : List String)
    → check_networks {R = PluginError} seen networks ≡ next out
    → AreTrusted networks × AllNew seen (profiles_of networks)
check_networks_sound seen [] out h = (tt, tt)
check_networks_sound seen (config ∷ configs) out h =
    let (seen', h1, k1) =
      >>=-eq-next (check_manifests config.network seen config.policy_manifests) _ h in
    let (trusted, new, e) =
      check_manifests_sound config.network seen config.policy_manifests seen' h1 in
    let (rest, fresh) = check_networks_sound seen' configs out k1 in
    (
      (trusted, rest),
      AllNew-++ seen (map profile_of config.policy_manifests) (profiles_of configs) new
          (subst (λ s. AllNew s (profiles_of configs)) e fresh),
    )

-- A configuration that the plugin accepts is a list of networks; every policy manifest in it is one that
-- the policy accepts in production and is for its own network, and no profile occurs in it twice.
pub assert_trusted_policy_configuration_sound :
    (config : PluginConfig) (networks : List NetworkConfig)
    → assert_trusted_policy_configuration {R = PluginError} config ≡ next networks
    → (config.networks ≡ some networks) × AreTrusted networks × AllNew [] (profiles_of networks)
unfolding assert_trusted_policy_configuration
assert_trusted_policy_configuration_sound config networks h = listed config.networks refl h
  where
    listed :
        (o : Option (List NetworkConfig))
        → config.networks ≡ o
        → assert_trusted_policy_configuration {R = PluginError} (record { networks = o })
          ≡ next networks
        → (config.networks ≡ some networks) × AreTrusted networks × AllNew [] (profiles_of networks)
    listed none e k = cc
    listed (some ns) e k =
        let (out, h1, k1) = >>=-eq-next (check_networks [] ns) _ k in
        let same = next-injective k1 in
        let (trusted, new) = check_networks_sound [] ns out h1 in
        (
          e ∙ ap some same,
          subst AreTrusted same trusted,
          subst (λ x. AllNew [] (profiles_of x)) same new,
        )
