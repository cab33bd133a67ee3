-- ===== src/Linter/Specs/Clouds.antt =====
-- linters/kubebench/spec/: the jobs on the nodes of the clouds (gke.go, aks.go, eks.go).
use kvisor.Base.{String, List, [], ◌∷◌}
use kvisor.Linter.Specs.{VolumeMount, HostVolume, BenchJob, read_only, host, bench_job}

abbrev gke_mounts : List VolumeMount
gke_mounts =
    read_only "var-lib-kubelet" "/var/lib/kubelet"
    ∷ read_only "etc-systemd" "/etc/systemd"
    ∷ read_only "etc-kubernetes" "/etc/kubernetes"
    ∷ read_only "home-kubernetes" "/home/kubernetes"
    ∷ []

abbrev gke_volumes : List HostVolume
gke_volumes =
    host "var-lib-kubelet" "/var/lib/kubelet"
    ∷ host "etc-systemd" "/etc/systemd"
    ∷ host "etc-kubernetes" "/etc/kubernetes"
    ∷ host "home-kubernetes" "/home/kubernetes"
    ∷ []

unfoldable pub gke : String → String → BenchJob
unfolding bench_job
gke node_name job_name =
    bench_job node_name job_name []
      ("kube-bench" ∷ "--config-dir" ∷ "/etc/kubebench-rules/" ∷ "run" ∷ "--targets"
        ∷ "node,policies,managedservices" ∷ "--benchmark" ∷ "gke-1.4.0" ∷ "--json" ∷ [])
      gke_mounts gke_volumes

abbrev aks_mounts : List VolumeMount
aks_mounts =
    read_only "var-lib-kubelet" "/var/lib/kubelet"
    ∷ read_only "etc-systemd" "/etc/systemd"
    ∷ read_only "etc-default" "/etc/default"
    ∷ read_only "etc-kubernetes" "/etc/kubernetes"
    ∷ []

abbrev aks_volumes : List HostVolume
aks_volumes =
    host "var-lib-kubelet" "/var/lib/kubelet"
    ∷ host "etc-systemd" "/etc/systemd"
    ∷ host "etc-default" "/etc/default"
    ∷ host "etc-kubernetes" "/etc/kubernetes"
    ∷ []

unfoldable pub aks : String → String → BenchJob
unfolding bench_job
aks node_name job_name =
    bench_job node_name job_name []
      ("kube-bench" ∷ "--config-dir" ∷ "/etc/kubebench-rules/" ∷ "run" ∷ "--targets" ∷ "node"
        ∷ "--benchmark" ∷ "aks-1.3" ∷ "--json" ∷ [])
      aks_mounts aks_volumes

abbrev eks_mounts : List VolumeMount
eks_mounts =
    read_only "var-lib-kubelet" "/var/lib/kubelet"
    ∷ read_only "etc-systemd" "/etc/systemd"
    ∷ read_only "etc-kubernetes" "/etc/kubernetes"
    ∷ []

abbrev eks_volumes : List HostVolume
eks_volumes =
    host "var-lib-kubelet" "/var/lib/kubelet"
    ∷ host "etc-systemd" "/etc/systemd"
    ∷ host "etc-kubernetes" "/etc/kubernetes"
    ∷ []

unfoldable pub eks : String → String → BenchJob
unfolding bench_job
eks node_name job_name =
    bench_job node_name job_name []
      ("kube-bench" ∷ "--config-dir" ∷ "/etc/kubebench-rules/" ∷ "run" ∷ "--targets" ∷ "node"
        ∷ "--benchmark" ∷ "eks-1.3.0" ∷ "--json" ∷ [])
      eks_mounts eks_volumes
