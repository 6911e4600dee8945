-- ===== src/Elastic/Tests.antt =====
-- elasticsearch_log_sink.cpp at concrete tags and events.
use bb_monitor.Base.{◌≡◌, refl, some, [], ◌∷◌, ◌++◌, codes, pos, arith, Bytes}
use bb_monitor.Elastic.{cut_last, no_split, split_splunk_tag, Event, process, process_queue}
use bb_monitor.Elastic.Container.{k8s_container, split_splunk_tag-k8s}

split_splunk_tag-k8s_example :
    split_splunk_tag (
      codes "rancher/calico"
      ++ 47
        ∷ (k8s_container (codes "node_a") (codes "sys") (codes "d8") (codes "4")
            ++ 47 ∷ codes "e6e"))
    ≡ record {
      code = pos 0;
      container_ns = codes "sys";
      container_name = codes "k8s_" ++ codes "node_a";
    }
split_splunk_tag-k8s_example =
    split_splunk_tag-k8s (codes "rancher/calico") (codes "node_a") (codes "sys") (codes "d8")
      (codes "4") (codes "e6e") refl refl refl (omega arith)

docker :
    split_splunk_tag (codes "bb-elk/1445e0d6e846")
    ≡ record { code = pos 0; container_ns = []; container_name = codes "bb-elk" }
unfolding split_splunk_tag cut_last
docker = refl

short : split_splunk_tag (codes "a/b") ≡ no_split
unfolding split_splunk_tag cut_last
short = refl

abbrev early : Event Bytes
early = record { event_time = pos 3; value = codes "x" }

abbrev late : Event Bytes
late = record { event_time = pos 9; value = codes "y" }

-- What is not due yet holds up what is.
held_up :
    process (pos 5) (record {
      queue = some early ∷ some late ∷ some early ∷ [];
      inserted = [];
      processed_count = 0;
    })
    ≡ (
      1,
      record { queue = some late ∷ some early ∷ []; inserted = early ∷ []; processed_count = 1 },
    )
unfolding process_queue
held_up = refl
