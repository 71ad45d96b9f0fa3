-- ===== src/Store/Tests.antt =====
-- Runs of the store.
use beauty_awg.Base.{true, [], any, arith}
use beauty_awg.Samples.{platform, database, phone_id, home_id}
use beauty_awg.Store.{set_grant, delete_grant, set_grant_rules_of, set_grant_exit_of}
use beauty_awg.Store.Exit.{HasOneExit, HasOneExit-kept}

database-HasOneExit : HasOneExit database
unfolding any
database-HasOneExit c n m h k = ground arith

HasOneExit-kept_example :
    HasOneExit (set_grant platform phone_id home_id database).1
    × HasOneExit (delete_grant platform phone_id home_id database).1
    × HasOneExit (set_grant_rules_of platform phone_id home_id [] database).1
    × HasOneExit (set_grant_exit_of platform phone_id home_id true database).1
HasOneExit-kept_example =
    HasOneExit-kept platform phone_id home_id true [] database database-HasOneExit
