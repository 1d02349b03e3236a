-- ===== src/Storage/Tests.antt =====
-- A file that is written, and puts to two blob nodes.
use mathlib.Core.List.{reverse-reverse}
use harbor_shield.Prelude.{
  ◌≡◌, refl, ap, false, some, List, [], ◌∷◌, reverse, codes, Text, text_eq, All,
}
use harbor_shield.Db.{World, calm, attempt, pure}
use harbor_shield.Db.Errors.{Result, ok}
use harbor_shield.Db.Returns.{ByResult}
use harbor_shield.Storage.Paths.{join_path, trim_endpoint}
use harbor_shield.Storage.Local.{Aead, Files, find_file, local_put, local_get}
use harbor_shield.Storage.Nodes.{Network, Node, delivered, unheard, request}
use harbor_shield.Storage.Distributed.{
  DistributedStore, blob_path, normalize_target_endpoints, put_to_endpoints, distributed_put,
  distributed_get, get_first, get_one, put_each, put_one, replace_endpoints, token_for_endpoint,
  set_endpoint_token,
}
use harbor_shield.Storage.Effects.{HasNode}
use harbor_shield.Storage.RoundTrip.{local_get-put}
use harbor_shield.Storage.Replication.{net, Holds}
use harbor_shield.Storage.Rollback.{TakenBack, Aside, put_to_endpoints_decides}

joined : join_path (codes "/data" ∷ codes "tenants/t/../a//b" ∷ []) ≡ codes "/data/tenants/a/b"
unfolding join_path
joined = refl

above_root : join_path (codes "/" ∷ codes "../x/" ∷ []) ≡ codes "/x"
unfolding join_path
above_root = refl

spelled : trim_endpoint (codes "  http://n1// ") ≡ codes "http://n1"
unfolding trim_endpoint
spelled = refl

-- A cipher for tests: the text backwards.
abbrev backwards : Aead
backwards = record {
  nonce_size = 2;
  seal = λ nonce plain. reverse plain;
  open_sealed = λ nonce sealed. some (reverse sealed);
}

abbrev old_file : Files
old_file = (codes "/data/b", codes "old") ∷ []

abbrev put_over_old : Result (Unit {0}) × World Files
put_over_old =
    local_put backwards (codes "/data") (7 ∷ 9 ∷ []) (codes "a") (ok (codes "hi")) (calm old_file)

local_get-put_example :
    ByResult put_over_old.0
      ((local_get backwards (codes "/data") (codes "a") (calm put_over_old.1.tables)).0
        ≡ ok (codes "hi"))
      Unit
    × ((q : Text)
        → text_eq (join_path (codes "/data" ∷ codes "a" ∷ [])) (join_path (codes "/data" ∷ q ∷ []))
          ≡ false
        → (local_get backwards (codes "/data") q (calm put_over_old.1.tables)).0
          ≡ (local_get backwards (codes "/data") q (calm old_file)).0)
local_get-put_example =
    local_get-put backwards (codes "/data") (7 ∷ 9 ∷ []) (codes "a") (codes "hi") (calm old_file)
      (λ nonce plain. ap some (reverse-reverse plain)) refl

abbrev n1 : Text
n1 = codes "http://n1"

abbrev n2 : Text
n2 = codes "http://n2"

abbrev two_nodes : List Node
two_nodes =
    record { endpoint = n1; blobs = [] }
    ∷ record { endpoint = n2; blobs = (codes "k", codes "kept") ∷ [] }
    ∷ []

abbrev both : DistributedStore
both = record { endpoints = n1 ∷ n2 ∷ []; shared_token = codes "t"; endpoint_tokens = [] }

put_both :
    (distributed_get both
      (codes "p")
      (distributed_put both (codes "p") (codes "hi") (net two_nodes [] [])).1).0
    ≡ ok (codes "hi")
unfolding distributed_get distributed_put get_first attempt get_one request put_to_endpoints
    put_each normalize_target_endpoints put_one pure find_file
put_both = refl

two_targets :
    All (HasNode two_nodes) (normalize_target_endpoints both (n2 ∷ codes "http://n1/" ∷ []))
unfolding normalize_target_endpoints
two_targets = (refl, (refl, tt))

abbrev put_to_both : Result (Unit {0}) × World Network
put_to_both =
    put_to_endpoints both (codes "p") (codes "hi") (n2 ∷ codes "http://n1/" ∷ [])
      (net two_nodes (delivered ∷ unheard ∷ []) [])

put_to_endpoints_decides_example :
    ByResult put_to_both.0
      (All
        (Holds (codes "p") (codes "hi") put_to_both.1)
        (normalize_target_endpoints both (n2 ∷ codes "http://n1/" ∷ [])))
      (TakenBack
        (codes "p")
        (codes "hi")
        []
        (delivered ∷ unheard ∷ [])
        (normalize_target_endpoints both (n2 ∷ codes "http://n1/" ∷ []))
        put_to_both.1)
    × Aside
        (blob_path (codes "p"))
        (net two_nodes (delivered ∷ unheard ∷ []) []).tables
        put_to_both.1.tables
put_to_endpoints_decides_example =
    put_to_endpoints_decides both (codes "p") (codes "hi") (n2 ∷ codes "http://n1/" ∷ []) two_nodes
      (delivered ∷ unheard ∷ []) [] refl two_targets

-- With no endpoint a put returns no error, and nothing is stored.
put_nowhere :
    distributed_put
      (replace_endpoints (codes " / " ∷ []) both)
      (codes "p")
      (codes "hi")
      (net two_nodes [] [])
    ≡ (ok tt, net two_nodes [] [])
unfolding distributed_put replace_endpoints put_to_endpoints put_each normalize_target_endpoints
    pure
put_nowhere = refl

own_token :
    token_for_endpoint (set_endpoint_token (codes "http://n1/") (codes "own") both) n1 ≡ codes "own"
unfolding token_for_endpoint set_endpoint_token
own_token = refl
