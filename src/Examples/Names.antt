-- ===== src/Examples/Names.antt =====
-- The name of a job, cut to its length.
use markov.Prelude.{true, false, ◌≡◌, refl, arith, ◌≤◌}
use Prim.Native.String.{len}
use markov.Engine.Env.{Go}
use markov.Engine.K8sName.{is_name_char, is_edge, sanitize_k8s_name}
use markov.Engine.K8sName.Safe.{all_chars, ends_in, sanitize_k8s_name-safe}
use markov.Examples.Setting.{go}

abbrev hashing : Go
hashing = record go { sha256_hex = λ s. "0123456789abcdef" }

job_name_cut : sanitize_k8s_name hashing "deploy_the (big) app." 14 ≡ "deplo-01234567"
unfolding sanitize_k8s_name
job_name_cut = refl

job_name_kept : sanitize_k8s_name hashing "--deploy__the (big) app." 63 ≡ "deploy-the-big-app"
unfolding sanitize_k8s_name
job_name_kept = refl

sanitize_k8s_name-safe_example :
    (all_chars is_name_char (sanitize_k8s_name hashing "deploy_the (big) app." 14) ≡ true)
    × (ends_in is_edge (sanitize_k8s_name hashing "deploy_the (big) app." 14) ≡ false)
    × (len (sanitize_k8s_name hashing "deploy_the (big) app." 14) ≤ 14)
sanitize_k8s_name-safe_example =
    sanitize_k8s_name-safe hashing "deploy_the (big) app." 14 (λ s. refl) (omega arith)
