-- ===== src/Syslog/Tests.antt =====
-- The logger at concrete inputs.
use skynet_server.Common.{◌≡◌, refl}
use skynet_server.Common.Bytes.{codes}
use skynet_server.Syslog.{log_err, log_warning, check_msg, cb, View, cb-View}

an_error : cb 0x1a (codes "E|disk full") ≡ (log_err, codes "[:0000001a] disk full")
unfolding cb check_msg
an_error = refl

no_letter : cb 0x1a (codes "X|disk full") ≡ (log_warning, codes "[:0000001a] X|disk full")
unfolding cb check_msg
no_letter = refl

cb-View_example : View 26 (codes "E|disk full")
cb-View_example = cb-View 26 (codes "E|disk full")
