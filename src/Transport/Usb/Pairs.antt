-- ===== src/Transport/Usb/Pairs.antt =====
-- What `find_bulk_interface` of src/op_usb.c finds.
use openport_j.Base.{
  ℕ, ◌≡◌, refl, sym, ap, ap₂, ◌∙◌, ◌⊎◌, Bool, true, false, not, ◌&&◌, ◌||◌, List, [], ◌∷◌, ◌++◌,
  Option, some, none, arith, ◌==◌, if◌then◌else◌, if_cases, inl, inr,
}
use mathlib.Core.Path.{subst}
use openport_j.Base.All.{All}
use openport_j.Transport.Usb.Find.{
  Endpoint, AltSetting, Config, Descriptor, UsbDevice, class_mass_storage, Found, is_bulk, is_in,
  packet_size, keep_first, scan_endpoints, is_storage, pair_found, alt_found, Search, return_found,
  find_alts, find_interfaces, find_configs, find_bulk_interface,
}

-- All alternate settings of a device, in the order in which they are told.
abbrev pub alts_of : Config → List AltSetting
alts_of [] = []
alts_of (i ∷ is) = i ++ alts_of is

abbrev pub all_alts : List (Option Config) → List AltSetting
all_alts [] = []
all_alts (none ∷ cs) = all_alts cs
all_alts (some c ∷ cs) = alts_of c ++ all_alts cs

find_alts-append :
    (xs bs : List AltSetting) (saw : Bool)
    → find_alts (xs ++ bs) saw
      ≡ return_found (find_alts xs saw).0 (find_alts xs saw).1 (find_alts bs (find_alts xs saw).1)
unfolding find_alts
find_alts-append [] bs saw = refl
find_alts-append (a ∷ xs) bs saw = ground (arith, find_alts-append xs bs (saw || is_storage a))

find_interfaces_flat : (c : Config) (saw : Bool) → find_interfaces c saw ≡ find_alts (alts_of c) saw
unfolding find_interfaces
find_interfaces_flat [] saw = unfold find_alts in refl
find_interfaces_flat (i ∷ is) saw =
    ap (return_found (find_alts i saw).0 (find_alts i saw).1)
      (find_interfaces_flat is (find_alts i saw).1)
    ∙ sym (find_alts-append i (alts_of is) saw)

-- The nested loops are one search.
find_configs_flat :
    (cs : List (Option Config)) (saw : Bool) → find_configs cs saw ≡ find_alts (all_alts cs) saw
unfolding find_configs
find_configs_flat [] saw = unfold find_alts in refl
find_configs_flat (none ∷ cs) saw = find_configs_flat cs saw
find_configs_flat (some c ∷ cs) saw =
    ap (λ (r : Search). return_found r.0 r.1 (find_configs cs r.1)) (find_interfaces_flat c saw)
    ∙ ap (return_found (find_alts (alts_of c) saw).0 (find_alts (alts_of c) saw).1)
        (find_configs_flat cs (find_alts (alts_of c) saw).1)
    ∙ sym (find_alts-append (alts_of c) (all_alts cs) saw)

-- The first endpoint that passes a test.
abbrev pub first_such : (Endpoint → Bool) → List Endpoint → Option Endpoint
first_such f [] = none
first_such f (e ∷ es) = if f e then some e else first_such f es

abbrev pub bulk_in : Endpoint → Bool
bulk_in e = is_bulk e && is_in e

abbrev pub bulk_out : Endpoint → Bool
bulk_out e = is_bulk e && not (is_in e)

abbrev in_entry : Option Endpoint → Option (ℕ × ℕ)
in_entry none = none
in_entry (some e) = some (e.address, packet_size e)

abbrev out_entry : Option Endpoint → Option ℕ
out_entry none = none
out_entry (some e) = some e.address

abbrev or_else {ℓ} : {A : Type ℓ} → Option A → Option A → Option A
or_else (some x) o = some x
or_else none o = o

in_step :
    (b : Bool) (ins : Option (ℕ × ℕ)) (e : Endpoint) (o : Option Endpoint)
    → or_else (if b then keep_first ins (e.address, packet_size e) else ins) (in_entry o)
      ≡ or_else ins (in_entry (if b then some e else o))
in_step true none e o = refl
in_step true (some i) e o = refl
in_step false ins e o = refl

out_step :
    (b : Bool) (out : Option ℕ) (e : Endpoint) (o : Option Endpoint)
    → or_else (if b then keep_first out e.address else out) (out_entry o)
      ≡ or_else out (out_entry (if b then some e else o))
out_step true none e o = refl
out_step true (some i) e o = refl
out_step false out e o = refl

or_else-none {ℓ} : {A : Type ℓ} (o : Option A) → or_else o none ≡ o
or_else-none none = refl
or_else-none (some x) = refl

-- The loop over the endpoints keeps the first bulk endpoint of each direction.
scan_endpoints_lem :
    (es : List Endpoint) (ins : Option (ℕ × ℕ)) (out : Option ℕ)
    → scan_endpoints es ins out ≡ (
      or_else ins (in_entry (first_such bulk_in es)),
      or_else out (out_entry (first_such bulk_out es)),
    )
unfolding scan_endpoints
scan_endpoints_lem [] ins out =
    ap₂ (λ a b. (a, b)) (sym (or_else-none ins)) (sym (or_else-none out))
scan_endpoints_lem (e ∷ es) ins out =
    scan_endpoints_lem es _ _
    ∙ ap₂ (λ a b. (a, b)) (in_step (bulk_in e) ins e (first_such bulk_in es))
        (out_step (bulk_out e) out e (first_such bulk_out es))

-- An alternate setting that is not storage, with its first bulk endpoints.
abbrev pub Usable : AltSetting → Found → Type 0
Usable a f =
    (is_storage a ≡ false)
    × ((i : Endpoint) × (o : Endpoint) × (first_such bulk_in a.endpoints ≡ some i)
        × (first_such bulk_out a.endpoints ≡ some o)
        × (f ≡ record {
          intf = a.number;
          ep_in = i.address;
          ep_out = o.address;
          max_in = packet_size i;
        }))

abbrev pub NoPair : AltSetting → Type 0
NoPair a =
    (is_storage a ≡ true)
    ⊎ (first_such bulk_in a.endpoints ≡ none)
    ⊎ (first_such bulk_out a.endpoints ≡ none)

-- What is found in one alternate setting.
abbrev Finds : AltSetting → Option Found → Type 0
Finds a none = NoPair a
Finds a (some f) = Usable a f

pair_found-Finds :
    (a : AltSetting) (i o : Option Endpoint)
    → is_storage a ≡ false
    → first_such bulk_in a.endpoints ≡ i
    → first_such bulk_out a.endpoints ≡ o
    → Finds a (pair_found a.number (in_entry i, out_entry o))
pair_found-Finds a none o n e e' = inr (inl e)
pair_found-Finds a (some i) none n e e' = inr (inr e')
pair_found-Finds a (some i) (some o) n e e' = (n, (i, o, e, e', refl))

alt_found-Finds : (a : AltSetting) → Finds a (alt_found a)
unfolding alt_found
alt_found-Finds a =
    if_cases (Finds a) (is_storage a) _ _ (λ storage. inl storage)
      (λ n.
        subst (λ p. Finds a (pair_found a.number p))
          (sym (scan_endpoints_lem a.endpoints none none)) (pair_found-Finds a _ _ n refl refl))

abbrev pub any_storage : List AltSetting → Bool
any_storage [] = false
any_storage (a ∷ alts) = is_storage a || any_storage alts

-- The first usable one of a list, and whether storage stands before it.
abbrev pub FirstUsable : List AltSetting → Bool → Search → Type 0
FirstUsable alts saw r =
    ((r ≡ (none, saw || any_storage alts)) × All NoPair alts)
    ⊎ ((pre : List AltSetting) × (a : AltSetting) × (post : List AltSetting) × (f : Found) × (alts
          ≡ pre ++ (a ∷ post))
        × All NoPair pre
        × Usable a f
        × (r ≡ (some f, saw || any_storage pre)))

or_assoc : (a b c : Bool) → ((a || b) || c) ≡ (a || (b || c))
or_assoc true b c = refl
or_assoc false b c = refl

return_found-FirstUsable :
    (a : AltSetting) (alts : List AltSetting) (saw : Bool) (o : Option Found) (rest : Search)
    → Finds a o
    → FirstUsable alts (saw || is_storage a) rest
    → FirstUsable (a ∷ alts) saw (return_found o (saw || is_storage a) rest)
return_found-FirstUsable a alts saw (some f) rest u r =
    inr ([], a, alts, f, refl, tt, u, ap (λ b. (some f, saw || b)) u.0)
return_found-FirstUsable a alts saw none rest n (inl (e, l)) =
    inl (e ∙ ap (λ b. (none, b)) (or_assoc saw (is_storage a) (any_storage alts)), (n, l))
return_found-FirstUsable a alts saw none rest n (inr (pre, b, post, f, e, l, u, eq)) = inr (
  a ∷ pre,
  b,
  post,
  f,
  ap (λ s. a ∷ s) e,
  (n, l),
  u,
  eq ∙ ap (λ b. (some f, b)) (or_assoc saw (is_storage a) (any_storage pre)),
)

find_alts-FirstUsable :
    (alts : List AltSetting) (saw : Bool) → FirstUsable alts saw (find_alts alts saw)
unfolding find_alts
find_alts-FirstUsable [] true = inl (refl, tt)
find_alts-FirstUsable [] false = inl (refl, tt)
find_alts-FirstUsable (a ∷ alts) saw =
    return_found-FirstUsable a alts saw (alt_found a) _ (alt_found-Finds a)
      (find_alts-FirstUsable alts (saw || is_storage a))

-- `find_bulk_interface` over all configurations, interfaces and alternate settings that can be
-- read: it finds the first setting that is not storage and has a bulk endpoint of each direction,
-- and returns its first ones; where it finds none there is none. It says that storage was seen
-- where the device is of that class or a setting before the one found is.
pub find_bulk_interface-FirstUsable :
    (d : UsbDevice) (dd : Descriptor)
    → d.descriptor ≡ some dd
    → FirstUsable
        (all_alts d.configs)
        (dd.device_class == class_mass_storage)
        (find_bulk_interface d)
unfolding find_bulk_interface
find_bulk_interface-FirstUsable d dd e =
    rw (e, find_configs_flat d.configs (dd.device_class == class_mass_storage))
      (find_alts-FirstUsable (all_alts d.configs) (dd.device_class == class_mass_storage))
