-- ===== src/Discovery/Etcd/Range.antt =====
-- Which keys the etcd discovery asks for: those in the range from the service's key to its range
-- end, where etcd compares keys byte by byte.
use mini_api_gateway.Common.{
  ◌<◌, ◌≡◌, refl, sym, ap, ◌∙◌, Bool, true, false, not, ◌&&◌, ◌||◌, ◌==◌, ltb, [], ◌∷◌, ◌++◌, all,
  arith, Text, starts_with, starts_with-append, append_assoc,
}
use mini_api_gateway.Discovery.Etcd.{EtcdDiscovery, EtcdCodec, service_key, bump_last, range_end}

-- The order of etcd's keys.
unfoldable pub less : Text → Text → Bool
less [] [] = false
less [] (y ∷ ys) = true
less (x ∷ xs) [] = false
less (x ∷ xs) (y ∷ ys) = ltb x y || (x == y && less xs ys)

-- What etcd documents of a range: from the key, up to the range end and without it.
abbrev pub in_range : Text → Text → Text → Bool
in_range key end x = not (less x key) && less x end

less-nil : (x : Text) → less x [] ≡ false
unfolding less
less-nil [] = refl
less-nil (c ∷ x) = refl

-- A text with a last byte to which one can be added within ASCII.
abbrev pub EndsLow : Text → Type 0
EndsLow [] = ⊥
EndsLow (c ∷ []) = c < 127
EndsLow (c ∷ d ∷ s) = EndsLow (d ∷ s)

in_range-bump_last :
    (key x : Text) → EndsLow key → in_range key (bump_last key) x ≡ starts_with x key
unfolding less bump_last starts_with
in_range-bump_last [] x h = absurd h
in_range-bump_last (c ∷ []) [] h = refl
in_range-bump_last (c ∷ []) (y ∷ x) h = ground (arith, less-nil x)
in_range-bump_last (c ∷ d ∷ s) [] h = refl
in_range-bump_last (c ∷ d ∷ s) (y ∷ x) h = ground (arith, in_range-bump_last (d ∷ s) x h)

bump_last-ascii :
    (key : Text)
    → EndsLow key
    → all (λ c. ltb c 128) key ≡ true
    → all (λ c. ltb c 128) (bump_last key) ≡ true
unfolding bump_last
bump_last-ascii [] h a = absurd h
bump_last-ascii (c ∷ []) h a = ground arith
bump_last-ascii (c ∷ d ∷ s) h a = ground (arith, bump_last-ascii (d ∷ s) h (ground arith))

-- The keys that the discovery asks for are exactly those that begin with the key of the service,
-- where that is ASCII and its last byte is below 127.
pub in_range-service_key :
    (codec : EtcdCodec) (d : EtcdDiscovery) (name x : Text)
    → all (λ c. ltb c 128) (service_key d name) ≡ true
    → EndsLow (service_key d name)
    → in_range (service_key d name) (range_end codec (service_key d name)) x
      ≡ starts_with x (service_key d name)
unfolding range_end
in_range-service_key codec d name x a h =
    ap (λ (end : Text). in_range (service_key d name) end x)
      (codec.lossy_ascii (bump_last (service_key d name))
        (bump_last-ascii (service_key d name) h a))
    ∙ in_range-bump_last (service_key d name) x h

-- The keys of every other service whose name continues the name of the service are asked for too,
-- where the service's key is ASCII and its last byte is below 127.
in_range-continued :
    (codec : EtcdCodec) (d : EtcdDiscovery) (name rest : Text)
    → all (λ c. ltb c 128) (service_key d name) ≡ true
    → EndsLow (service_key d name)
    → in_range
        (service_key d name)
        (range_end codec (service_key d name))
        (service_key d (name ++ rest))
      ≡ true
unfolding service_key
in_range-continued codec d name rest a h =
    in_range-service_key codec d name (d.prefix ++ (name ++ rest)) a h
    ∙ ap (λ (x : Text). starts_with x (d.prefix ++ name)) (sym (append_assoc d.prefix name rest))
    ∙ starts_with-append (d.prefix ++ name) rest
