-- ===== src/LogProxy/Line/Tests.antt =====
-- `handle_line` of the log proxy (main.cpp) at concrete lines.
use bb_monitor.Base.{◌≡◌, refl, [], ◌∷◌, ◌++◌, Bytes, codes, pos, arith}
use bb_monitor.LogProxy.Line.{dropped, inserted, out_of_range, handle_line}
use bb_monitor.LogProxy.Line.RoundTrip.{AgentLine, agent_line, agent_log_line, handle_line-render}

abbrev agent : AgentLine
agent = record {
  api_key = codes "key";
  priority = codes "<46>0";
  collection_time = codes "2020";
  host = codes "web1";
  source = codes "nginx";
  unknown_1 = codes "-";
  unknown_2 = codes "-";
  ddsource = codes "nginx";
  ddsource_category = codes "http";
  ddtags =
      record { key = codes "env"; val = codes "prod" }
      ∷ record { key = codes "v"; val = codes "2" }
      ∷ [];
}

abbrev log_id : Bytes → Bytes
log_id s = s

handle_line-render_example :
    handle_line log_id (pos 7) (agent_line agent (codes " GET /"))
    ≡ inserted (agent_log_line log_id (pos 7) agent (codes " GET /"))
handle_line-render_example = handle_line-render log_id (pos 7) agent (codes " GET /") refl

no_brackets : handle_line log_id (pos 7) (codes "a b c d e f g h") ≡ dropped
unfolding handle_line bb_monitor.Base.Text.cut bb_monitor.LogProxy.Line.handle_labels
    bb_monitor.LogProxy.Line.search_for
no_brackets = refl
