-- ===== src/Transfer/Services.antt =====
-- Where the content of a URI can be had: the chain of service lookups (libcore/src/transfer/
-- ServiceLookup.hpp, CachedServiceLookup.hpp) and the handlers of protocols (ProtocolRegistry.hpp).
-- A map is an association list without order; what the options answer is a function.
use sirikata.Base.{
  ℕ, Bool, true, false, ◌&&◌, ◌||◌, not, Option, none, some, List, [], ◌∷◌, if◌then◌else◌,
}
use sirikata.Transfer.Uri.{Text, UriContext, Uri, find_slash}
use sirikata.Transfer.Uri.Order.{text_less, context_less}
pub mod Chain
mod Tests

-- The key that a map finds: the one that is neither less nor greater.
abbrev pub same_key {ℓ} : {K : Type ℓ} → (K → K → Bool) → K → K → Bool
same_key less j k = not (less j k) && not (less k j)

module _ {K V : Type 0} (less : K → K → Bool) where
  unfoldable pub find : K → List (K × V) → Option V
  find k [] = none
  find k ((j, v) ∷ m) = if same_key less j k then some v else find k m

  -- `m[k] = v`.
  unfoldable pub assign : K → V → List (K × V) → List (K × V)
  assign k v [] = (k, v) ∷ []
  assign k v ((j, w) ∷ m) = if same_key less j k then (j, v) ∷ m else (j, w) ∷ assign k v m

  -- `insert` keeps an entry that is there.
  unfoldable pub insert : K → V → List (K × V) → List (K × V)
  insert k v m = elim (find k m) [ none ↦ (k, v) ∷ m | some w ↦ m ]

abbrev pub ServiceParams : Type 0
ServiceParams = List (Text × Text)

-- `get` gives an empty string for a name that is not there.
unfoldable pub get_param : Text → ServiceParams → Text
get_param name params = elim (find text_less name params) [ none ↦ [] | some v ↦ v ]

unfoldable pub set_param : Text → Text → ServiceParams → ServiceParams
set_param name value params = assign text_less name value params

abbrev pub ListOfServices : Type 0
ListOfServices = List (UriContext × ServiceParams)

-- A shared pointer to a list of services; `none` is NULL.
abbrev pub Services : Type 0
Services = Option ListOfServices

-- One object of the chain: a `ServiceLookup` itself, a `CachedServiceLookup` with its map, or an
-- `OptionManagerServiceLookup` with what the options have for a context.
pub data Lookup : Type 0 where
  plain : Lookup
  cached : List (UriContext × Services) → Lookup
  options : (UriContext → Services) → Lookup

-- `addToCache` of an object and of those above it, the nearest first.
unfoldable pub add_to_cache : UriContext → Services → List Lookup → List Lookup
add_to_cache context services [] = []
add_to_cache context services (plain ∷ above) = plain ∷ add_to_cache context services above
add_to_cache context services (cached m ∷ above) =
    cached (insert context_less context services m) ∷ add_to_cache context services above
add_to_cache context services (options f ∷ above) = options f ∷ add_to_cache context services above

-- The chain from its top, of the objects above, nearest first, and those below.
abbrev pub rejoin : List Lookup → List Lookup → List Lookup
rejoin [] below = below
rejoin (x ∷ above) below = rejoin above (x ∷ below)

-- A null pointer in the cache counts as no entry.
unfoldable pub cached_services : UriContext → List (UriContext × Services) → Services
cached_services context m = elim (find context_less context m) [ none ↦ none | some v ↦ v ]

-- `lookupService` of the first object below, with the answer and the whole chain after it.
unfoldable pub lookup_service : UriContext → List Lookup → List Lookup → Services × List Lookup
lookup_service context above [] = (none, rejoin above [])
lookup_service context above (plain ∷ below) = lookup_service context (plain ∷ above) below
lookup_service context above (cached m ∷ below) =
    let on = lookup_service context (cached m ∷ above) below in
    elim (cached_services context m) [
      | none ↦ on
      | some v ↦ (some v, rejoin above (cached m ∷ below))
    ]
lookup_service context above (options f ∷ below) =
    let on = lookup_service context (options f ∷ above) below in
    elim (f context) [
      | none ↦ on
      | some v ↦ (some v, rejoin (add_to_cache context (some v) above) (options f ∷ below))
    ]

-- The protocols with the names that they are mapped to and their handlers; `services` is the chain,
-- if there is one.
pub record Registry (H : Type 0) : Type 0 where
  pub handlers : List (Text × (Text × Option H))
  pub services : Option (List Lookup)
  pub allow_non_service : Bool

module _ {H : Type 0} where
  unfoldable pub set_handler : Text → Text → Option H → Registry H → Registry H
  set_handler proto mapped handler r = record r {
    handlers = assign text_less proto (mapped, handler) r.handlers;
  }

  -- The name of the protocol, and the handler.
  unfoldable pub lookup : Text → Registry H → Text × Option H
  lookup proto r = elim (find text_less proto r.handlers) [ none ↦ (proto, none) | some h ↦ h ]

  abbrev pub has_handler : Text → Registry H → Bool
  has_handler proto r = elim (find text_less proto r.handlers) [ none ↦ false | some h ↦ true ]

  -- `ProtocolRegistry::lookupService`.
  unfoldable pub lookup_services : UriContext → Bool → Registry H → Services × Registry H
  lookup_services context allow_proto r =
      if allow_proto && (r.allow_non_service && has_handler context.proto r)
      then (some ((context, []) ∷ []), r)
      else elim r.services [
        | none ↦ (none, r)
        | some chain ↦
            let (found, chain') = lookup_service context [] chain in
            (found, record r { services = some chain' })
      ]

-- The URI of a file at a service, with the protocol that the registry maps its own to, and the
-- handler of that protocol.
unfoldable pub lookup_uri :
    {H : Type 0} → (ℕ → ℕ) → (ℕ → Bool) → Registry H → UriContext → Uri → Uri × Option H
lookup_uri tolower isspace registry service name =
    let uri = find_slash tolower isspace service name.path in
    let (proto, handler) = lookup uri.context.proto registry in
    (record uri { context = record uri.context { proto = proto } }, handler)
