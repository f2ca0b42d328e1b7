-- ===== src/Options/Guc/Session.antt =====
-- What `pg_clickhouse.session_settings` is set to is what src/settings.c later reads.
use pg_clickhouse.Prelude.{Bytes, List, [], ◌∷◌}
use pg_clickhouse.Nodes.{DefElem}
use pg_clickhouse.KvList.{KvList}
use pg_clickhouse.Options.Parse.Names.{text_of}
use pg_clickhouse.Options.Parse.Bytewise.{Bytewise}

pairs_of : List DefElem → List (Bytes × Bytes)
pairs_of [] = []
pairs_of (d ∷ ds) = (d.defname, text_of d.arg) ∷ pairs_of ds
