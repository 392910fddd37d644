-- ===== src/System/Lookup.antt =====
-- What is submitted can be looked up: the handler of POST /workflows, FindTaskByID and GetByID.
use go_tempo.Base.{List}
use go_tempo.External.{External}
use go_tempo.World.{World}
