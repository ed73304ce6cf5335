-- ===== src/Net/Log/Tests.antt =====
-- zysoft/net/log.cpp: three messages, of which one is below the severity.
use zysoft.Prelude.{List, [], ◌∷◌}
use zysoft.Text.Split.{Text}
use zysoft.Net.Log.{Severity, trace, warn, fatal, Logger, create_logger, set_log_severity}

abbrev messages : List (Severity × Text)
messages = (warn, 97 ∷ []) ∷ (trace, 98 ∷ []) ∷ (fatal, 99 ∷ []) ∷ []

abbrev logger : Logger
logger = set_log_severity warn create_logger
