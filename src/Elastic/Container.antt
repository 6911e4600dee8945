-- ===== src/Elastic/Container.antt =====
-- The tag of a container that Kubernetes runs, through `split_splunk_tag` (elasticsearch_log_sink.cpp).
use bb_monitor.Base.{
  ℕ, ◌+◌, ◌≤◌, ◌≡◌, refl, Bool, true, false, ◌&&◌, none, some, [], ◌∷◌, ◌++◌, Bytes, codes,
  is_empty, length, length-append, pos, arith, append_assoc,
}
use bb_monitor.Base.Text.{is_free_of, is_free_of-append}
use bb_monitor.Elastic.{cut_last, container_of, split_k8s, split_splunk_tag}

cut_last-free : (c : ℕ) (s : Bytes) → is_free_of c s ≡ true → cut_last c s ≡ none
unfolding cut_last
cut_last-free c [] h = refl
cut_last-free c (x ∷ s) h = ground (arith, h, cut_last-free c s)

cut_last-append :
    (c : ℕ) (s rest : Bytes)
    → is_free_of c rest ≡ true
    → cut_last c (s ++ c ∷ rest) ≡ some (s, rest)
unfolding cut_last
cut_last-append c [] rest h = ground (arith, cut_last-free c rest h)
cut_last-append c (x ∷ s) rest h = ground (arith, cut_last-append c s rest h)

-- What a container's name is made of.
abbrev pub k8s_container : Bytes → Bytes → Bytes → Bytes → Bytes
k8s_container name ns uid attempt =
    codes "k8s_" ++ (name ++ 95 ∷ (ns ++ 95 ∷ (uid ++ 95 ∷ attempt)))

abbrev pub is_container : Bytes → Bytes → Bytes → Bytes → Bool
is_container name ns uid attempt =
    is_free_of 47 name
    && ((is_free_of 47 ns && is_free_of 95 ns)
        && ((is_free_of 47 uid && is_free_of 95 uid)
            && (is_free_of 47 attempt && is_free_of 95 attempt)))

split_k8s-container :
    (name ns uid attempt : Bytes)
    → is_container name ns uid attempt ≡ true
    → 4 ≤ length name + length ns + length uid
    → split_k8s (k8s_container name ns uid attempt)
      ≡ record { code = pos 0; container_ns = ns; container_name = codes "k8s_" ++ name }
split_k8s-container name ns uid attempt h k =
    let before_ns = codes "k8s_" ++ name in
    let before_uid = before_ns ++ 95 ∷ ns in
    let before = before_uid ++ 95 ∷ uid in
    ground (
      arith,
      append_assoc (name ++ 95 ∷ ns) (95 ∷ uid) (95 ∷ attempt),
      append_assoc name (95 ∷ ns) (95 ∷ (uid ++ 95 ∷ attempt)),
      cut_last-append 95 before attempt (ground (arith, h)),
      cut_last-append 95 before_uid uid (ground (arith, h)),
      cut_last-append 95 before_ns ns (ground (arith, h)),
      length-append before_uid (95 ∷ uid),
      length-append before_ns (95 ∷ ns),
      k,
    )

k8s_container-is_free_of :
    (name ns uid attempt : Bytes)
    → is_container name ns uid attempt ≡ true
    → is_free_of 47 (k8s_container name ns uid attempt) ≡ true
k8s_container-is_free_of name ns uid attempt h = ground (
  arith,
  h,
  is_free_of-append 47 name (95 ∷ (ns ++ 95 ∷ (uid ++ 95 ∷ attempt))),
  is_free_of-append 47 ns (95 ∷ (uid ++ 95 ∷ attempt)),
  is_free_of-append 47 uid (95 ∷ attempt),
)

container_of-append :
    (image container : Bytes)
    → is_empty image ≡ false
    → is_free_of 47 container ≡ true
    → container_of (image ++ 47 ∷ container) ≡ container
container_of-append [] container h k = absurd (cc h)
container_of-append (c ∷ image) container h k =
    ground (arith, cut_last-append 47 (c ∷ image) container k)

-- The tag <image>/k8s_<name>_<namespace>_<uid>_<attempt>/<id> gives the namespace, and k8s_<name>
-- as the name, as long as the image is not empty, no part but the image holds a slash, namespace,
-- uid and attempt hold no underscore, and name, namespace and uid have four bytes or more together.
pub split_splunk_tag-k8s :
    (image name ns uid attempt id : Bytes)
    → is_empty image ≡ false
    → is_container name ns uid attempt ≡ true
    → is_free_of 47 id ≡ true
    → 4 ≤ length name + length ns + length uid
    → split_splunk_tag (image ++ 47 ∷ (k8s_container name ns uid attempt ++ 47 ∷ id))
      ≡ record { code = pos 0; container_ns = ns; container_name = codes "k8s_" ++ name }
unfolding split_splunk_tag
split_splunk_tag-k8s image name ns uid attempt id h k l m =
    let container = k8s_container name ns uid attempt in
    ground (
      arith,
      append_assoc image (47 ∷ container) (47 ∷ id),
      cut_last-append 47 (image ++ 47 ∷ container) id l,
      length-append image (47 ∷ container),
      container_of-append image container h (k8s_container-is_free_of name ns uid attempt k),
      split_k8s-container name ns uid attempt k m,
    )
