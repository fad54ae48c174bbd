-- ===== src/Discovery/Consul/Health.antt =====
-- Which endpoints a health check of the Consul discovery finds.
use mini_api_gateway.Common.{
  ◌≡◌, ◌≢◌, ◌↔◌, refl, sym, ◌∙◌, subst, ◌⊎◌, inl, inr, Bool, true, ◌&&◌, not, List, [], ◌∷◌,
  is_empty, all_sound, all_complete, Memᴰ, if◌then◌else◌, Bool-cases, arith, Text, text, text_eq,
  text_eq_iff,
}
use mini_api_gateway.Discovery.Consul.{
  ConsulService, ConsulCheck, is_healthy, endpoint_of, endpoints_of,
}

-- A service that can be called: all its checks pass, and it has an address.
pub record IsServing (svc : ConsulService) : Type 0 where
  pub passing : (c : ConsulCheck) → Memᴰ c svc.checks → c.status ≡ text "passing"
  pub addressed : svc.service_address ≢ []

abbrev serves : ConsulService → Bool
serves svc = is_healthy svc && not (is_empty svc.service_address)

empty_iff : (s : Text) → (not (is_empty s) ≡ true) ↔ (s ≢ [])
empty_iff [] = ((λ h. cc), λ h. absurd (h refl))
empty_iff (c ∷ s) = ((λ h e. cc), λ h. refl)

serves_iff : (svc : ConsulService) → (serves svc ≡ true) ↔ IsServing svc
unfolding is_healthy
serves_iff svc = (sound, complete)
  where
    sound : serves svc ≡ true → IsServing svc
    sound h =
        let healthy : is_healthy svc ≡ true = ground arith in
        record {
          passing = λ c m.
              (text_eq_iff c.status (text "passing")).0
                (all_sound (λ c. text_eq c.status (text "passing")) svc.checks healthy c m);
          addressed = (empty_iff svc.service_address).0 (ground arith);
        }

    complete : IsServing svc → serves svc ≡ true
    complete v =
        rw
          (
            all_complete (λ c. text_eq c.status (text "passing")) svc.checks
                (λ c m. (text_eq_iff c.status (text "passing")).1 (v.passing c m)),
            (empty_iff svc.service_address).1 v.addressed,
          )
          refl

endpoints_of_step :
    (svc : ConsulService) (svcs : List ConsulService)
    → endpoints_of (svc ∷ svcs)
      ≡ (if serves svc then endpoint_of svc ∷ endpoints_of svcs else endpoints_of svcs)
unfolding endpoints_of
endpoints_of_step svc svcs = ground arith

-- An endpoint that a service behind the first one has, or that the first one has itself.
here-or-later :
    (svc : ConsulService) (svcs : List ConsulService) (e : Text)
    → Memᴰ e (endpoints_of (svc ∷ svcs))
    → (IsServing svc × (e ≡ endpoint_of svc)) ⊎ Memᴰ e (endpoints_of svcs)
here-or-later svc svcs e m = elim (Bool-cases (serves svc)) [
  | inl y ↦
      first (subst (Memᴰ e) (endpoints_of_step svc svcs ∙ (rw y refl)) m) ((serves_iff svc).0 y)
  | inr n ↦ inr (subst (Memᴰ e) (endpoints_of_step svc svcs ∙ (rw n refl)) m)
]
  where
    first :
        Memᴰ e (endpoint_of svc ∷ endpoints_of svcs)
        → IsServing svc
        → (IsServing svc × (e ≡ endpoint_of svc)) ⊎ Memᴰ e (endpoints_of svcs)
    first (Memᴰ.head same) v = inl (v, same)
    first (Memᴰ.tail m) v = inr m

pub endpoints_of_sound :
    (svcs : List ConsulService) (e : Text)
    → Memᴰ e (endpoints_of svcs)
    → (svc : ConsulService) × Memᴰ svc svcs × IsServing svc × (e ≡ endpoint_of svc)
unfolding endpoints_of
endpoints_of_sound [] e m = elim m [ ]
endpoints_of_sound (svc ∷ svcs) e m = elim (here-or-later svc svcs e m) [
  | inl (v, same) ↦ (svc, Memᴰ.head refl, v, same)
  | inr later ↦
      let (other, n, v, same) = endpoints_of_sound svcs e later in (other, Memᴰ.tail n, v, same)
]

serving-endpoint :
    (svc : ConsulService) (svcs : List ConsulService)
    → IsServing svc
    → Memᴰ (endpoint_of svc) (endpoints_of (svc ∷ svcs))
serving-endpoint svc svcs v = rw (endpoints_of_step svc svcs, (serves_iff svc).1 v) (Memᴰ.head refl)

later-endpoint :
    (svc : ConsulService) (svcs : List ConsulService) (e : Text)
    → Memᴰ e (endpoints_of svcs)
    → Memᴰ e (endpoints_of (svc ∷ svcs))
later-endpoint svc svcs e m = elim (Bool-cases (serves svc)) [
  | inl y ↦ rw (endpoints_of_step svc svcs, y) (Memᴰ.tail m)
  | inr n ↦ rw (endpoints_of_step svc svcs, n) m
]

endpoints_of_complete :
    (svcs : List ConsulService) (svc : ConsulService)
    → Memᴰ svc svcs
    → IsServing svc
    → Memᴰ (endpoint_of svc) (endpoints_of svcs)
endpoints_of_complete [] svc m v = elim m [ ]
endpoints_of_complete (other ∷ svcs) svc (Memᴰ.head e) v =
    subst (λ (x : ConsulService). Memᴰ (endpoint_of x) (endpoints_of (other ∷ svcs))) (sym e)
      (serving-endpoint other svcs (subst IsServing e v))
endpoints_of_complete (other ∷ svcs) svc (Memᴰ.tail m) v =
    later-endpoint other svcs (endpoint_of svc) (endpoints_of_complete svcs svc m v)

-- The endpoints that are found are exactly those of the services that can be called: of which all
-- checks pass, and which have an address.
pub endpoints_of_iff :
    (svcs : List ConsulService) (e : Text)
    → Memᴰ e (endpoints_of svcs)
      ↔ ((svc : ConsulService) × Memᴰ svc svcs × IsServing svc × (e ≡ endpoint_of svc))
endpoints_of_iff svcs e = (
  endpoints_of_sound svcs e,
  λ (svc, m, v, same).
      subst (λ (x : Text). Memᴰ x (endpoints_of svcs)) (sym same)
        (endpoints_of_complete svcs svc m v),
)
