-- ===== src/Dedup.antt =====
-- The dedup barrier: `check_and_mark_processed` of src/zookeeper/zk.py. A znode is known by its name under
-- /flowfirst/dedup.
pub mod Reaper
pub mod Expired
pub mod Exact
use flow_first.Base.{String, Bool, true, false, List, [], ◌∷◌, ◌++◌, contains, keep, not}
use flow_first.Base.Int.{ℤ, ltb_ℤ}
use flow_first.Base.Result.{zookeeper_error}
use flow_first.World.{Action, give, ◌>>◌, call}

-- zk.create raises NodeExistsError exactly if the znode is there, which the routine turns into False
abbrev create : Bool → String → Action Bool
create true message_id = call zookeeper_error (λ w. w) >> give false
create false message_id =
    call zookeeper_error (λ w. record w { dedup = w.dedup ++ message_id ∷ [] }) >> give true

unfoldable pub check_and_mark_processed : String → Action Bool
unfolding contains
check_and_mark_processed message_id w = create (contains w.dedup message_id) message_id w
