-- ===== src/Store/Served.antt =====
-- The whole life of a realm's store, from `NewStore` on an accepted configuration.
use mathlib.Core.List.{Memᴰ}
use hoocloak.Base.{◌≡◌, ℕ, String, List, Option, none, arith}
use hoocloak.Base.Map.{size}
use hoocloak.Client.{Urls}
use hoocloak.Config.{Config, Realm}
use hoocloak.Config.Validate.{validate}
use hoocloak.Store.Types.{Crypto}
use hoocloak.Store.Prune.Schedule.{IsScheduled}
use hoocloak.Store.Families.{IsLinked}
use hoocloak.Store.Families.Kept.{run-IsLinked}
use hoocloak.Store.Codes.{IsAllocated}
use hoocloak.Store.Codes.Allocated.{run-IsAllocated}
use hoocloak.Store.Pending.{IsBounded, run-IsBounded}
use hoocloak.Store.Clients.{new_store}
use hoocloak.Store.Clients.Registered.{new_store_sound}
use hoocloak.Store.Calls.{Call, run}
use hoocloak.Store.Calls.Fresh.{AllFresh}
use hoocloak.Store.Calls.Schedule.{run-IsScheduled}

-- The store of a realm in an accepted configuration, after any calls with new identifiers, is
-- rightly scheduled, its families are linked, its pointers are allocated, and no more than 1024
-- authorization requests are pending.
pub run-new_store :
    (crypto : Crypto) (urls : Urls) (cost : String → Option ℕ) (base kid : String) (c : Config)
    (realm : Realm) (calls : List Call)
    → validate urls.net cost crypto.fold c ≡ none
    → Memᴰ realm c.realms
    → AllFresh crypto (new_store crypto urls realm c.tokens base kid) calls
    → let s = run crypto (new_store crypto urls realm c.tokens base kid) calls in
      IsScheduled s × IsLinked s × IsAllocated s × IsBounded s
unfolding new_store size
run-new_store crypto urls cost base kid c realm calls accepted served fresh =
    let s = new_store crypto urls realm c.tokens base kid in
    let start = new_store_sound crypto urls cost base kid c realm accepted served in
    (
      run-IsScheduled crypto s calls fresh start.0,
      run-IsLinked crypto s calls fresh start.1,
      run-IsAllocated crypto s calls fresh start.2,
      run-IsBounded crypto s calls fresh (omega arith),
    )
