-- ===== src/Linter/Specs/Plain.antt =====
-- linters/kubebench/spec/: the jobs on nodes of other clusters (master.go, node.go).
use kvisor.Base.{String, List, [], ◌∷◌}
use kvisor.Linter.Specs.{Toleration, VolumeMount, HostVolume, BenchJob, read_only, host, bench_job}

abbrev master_tolerations : List Toleration
master_tolerations =
    record { key = ""; operator = "Exists"; effect = "NoSchedule" }
    ∷ record { key = "CriticalAddonsOnly"; operator = "Exists"; effect = "" }
    ∷ record { key = ""; operator = "Exists"; effect = "NoExecute" }
    ∷ []

abbrev master_mounts : List VolumeMount
master_mounts =
    read_only "var-lib-etcd" "/var/lib/etcd"
    ∷ read_only "var-lib-kubelet" "/var/lib/kubelet"
    ∷ read_only "var-lib-kube-scheduler" "/var/lib/kube-scheduler"
    ∷ read_only "var-lib-kube-controller-manager" "/var/lib/kube-controller-manager"
    ∷ read_only "etc-systemd" "/etc/systemd"
    ∷ read_only "lib-systemd" "/lib/systemd/"
    ∷ read_only "srv-kubernetes" "/srv/kubernetes/"
    ∷ read_only "etc-kubernetes" "/etc/kubernetes"
    ∷ read_only "usr-bin" "/usr/local/mount-from-host/bin"
    ∷ read_only "etc-cni-netd" "/etc/cni/net.d/"
    ∷ read_only "opt-cni-bin" "/opt/cni/bin/"
    ∷ read_only "etc-passwd" "/etc/passwd"
    ∷ read_only "etc-group" "/etc/group"
    ∷ []

abbrev master_volumes : List HostVolume
master_volumes =
    host "var-lib-etcd" "/var/lib/etcd"
    ∷ host "var-lib-kubelet" "/var/lib/kubelet"
    ∷ host "var-lib-kube-scheduler" "/var/lib/kube-scheduler"
    ∷ host "var-lib-kube-controller-manager" "/var/lib/kube-controller-manager"
    ∷ host "etc-systemd" "/etc/systemd"
    ∷ host "lib-systemd" "/lib/systemd"
    ∷ host "srv-kubernetes" "/srv/kubernetes"
    ∷ host "etc-kubernetes" "/etc/kubernetes"
    ∷ host "usr-bin" "/usr/bin"
    ∷ host "etc-cni-netd" "/etc/cni/net.d/"
    ∷ host "opt-cni-bin" "/opt/cni/bin/"
    ∷ host "etc-passwd" "/etc/passwd"
    ∷ host "etc-group" "/etc/group"
    ∷ []

unfoldable pub master : String → String → BenchJob
unfolding bench_job
master node_name job_name =
    bench_job node_name job_name master_tolerations
      ("kube-bench" ∷ "--config-dir" ∷ "/etc/kubebench-rules/" ∷ "run" ∷ "--targets" ∷ "master"
        ∷ "--json" ∷ [])
      master_mounts master_volumes

abbrev node_spec_mounts : List VolumeMount
node_spec_mounts =
    read_only "var-lib-etcd" "/var/lib/etcd"
    ∷ read_only "var-lib-kubelet" "/var/lib/kubelet"
    ∷ read_only "var-lib-kube-scheduler" "/var/lib/kube-scheduler"
    ∷ read_only "var-lib-kube-controller-manager" "/var/lib/kube-controller-manager"
    ∷ read_only "etc-systemd" "/etc/systemd"
    ∷ read_only "lib-systemd" "/lib/systemd/"
    ∷ read_only "srv-kubernetes" "/srv/kubernetes/"
    ∷ read_only "etc-kubernetes" "/etc/kubernetes"
    ∷ read_only "usr-bin" "/usr/local/mount-from-host/bin"
    ∷ read_only "etc-cni-netd" "/etc/cni/net.d/"
    ∷ read_only "opt-cni-bin" "/opt/cni/bin/"
    ∷ []

abbrev node_spec_volumes : List HostVolume
node_spec_volumes =
    host "var-lib-etcd" "/var/lib/etcd"
    ∷ host "var-lib-kubelet" "/var/lib/kubelet"
    ∷ host "var-lib-kube-scheduler" "/var/lib/kube-scheduler"
    ∷ host "var-lib-kube-controller-manager" "/var/lib/kube-controller-manager"
    ∷ host "etc-systemd" "/etc/systemd"
    ∷ host "lib-systemd" "/lib/systemd"
    ∷ host "srv-kubernetes" "/srv/kubernetes"
    ∷ host "etc-kubernetes" "/etc/kubernetes"
    ∷ host "usr-bin" "/usr/bin"
    ∷ host "etc-cni-netd" "/etc/cni/net.d/"
    ∷ host "opt-cni-bin" "/opt/cni/bin/"
    ∷ []

unfoldable pub node_spec : String → String → BenchJob
unfolding bench_job
node_spec node_name job_name =
    bench_job node_name job_name []
      ("kube-bench" ∷ "--config-dir" ∷ "/etc/kubebench-rules/" ∷ "run" ∷ "--targets" ∷ "node"
        ∷ "--json" ∷ [])
      node_spec_mounts node_spec_volumes
