-- ===== src/ConnectionTracker/Refinement.antt =====
-- ConnectionTracker.hpp against a map from connections to what is known of them.
use brypt_node.ConnectionTracker.Store.{Store}
