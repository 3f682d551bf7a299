-- ===== src/Lib.antt =====
-- The SMB CSI driver for Kubernetes: a model of its node and controller services, and what holds of
-- them.
--
-- The program. A driver process answers gRPC requests of Kubernetes. The controller service
-- (pkg/smb/controllerserver.go) makes and deletes volumes, which are directories on an SMB share: it
-- mounts the share below its working directory by calling the node service of the same process, works
-- there, and unmounts it. The node service (pkg/smb/nodeserver.go) mounts a share at a staging path and
-- binds it to the paths of pods. Both keep a set of locked keys (pkg/smb/volume_lock.go). A mount that
-- takes too long outlives its request; its lock is then released by a goroutine that waits for it.
--
-- The files.
--   Base, Text, FilePath, Strconv     numbers, lists, and the functions of Go's strings, path/filepath
--                                     and strconv that the program calls
--   Result, Exec                      errors as values; actions on a state that may fail, with `defer`
--                                     as `finally`. The children of Exec hold rules to reason on
--                                     them: what is kept, yielded, ensured, and how runs succeed
--   Names                             the constants of pkg/smb/smb.go
--   Dict                              setKeyValueInMap, replaceWithMap, getMountOptions
--   Volume                            smbVolume: getVolumeIDFromSmbVol, getSmbVolFromID, newSMBVolume,
--                                     validatePath, getInternalMountPath, getInternalVolumePath
--   Options                           the mount options: appendMountOptions, enableGroupRWX,
--                                     raiseGroupRWXInMountFlags, NeedsCredentialsOption and the tests
--   Kerberos                          the names of Kerberos caches
--   World, Config, Locks              the state: the trace of calls to the outside, the locks, the
--                                     mounts that outlived their request; the fields that NewDriver sets
--   Node/Mounter                      ensureMountPoint, makeDir, Mount, CleanupSMBMountPoint,
--                                     CleanupMountPoint, removeDir on Linux and on Windows
--                                     its children Ready and Shown, and Node/Stage/Shown, say what
--                                     their success means
--   Node/Kerberos                     ensureKerberosCache, getKerberosCache, deleteKerberosCache
--   Node/Context, Node/Stage          NodeStageVolume, mountWithTimeout, NodeUnstageVolume
--   Node/Publish                      NodePublishVolume, NodeUnpublishVolume
--   Node/Stats                        NodeGetVolumeStats and its cache
--   Node/Info                         NodeGetCapabilities, NodeGetInfo, NodeExpandVolume
--   Controller                        CreateVolume, DeleteVolume, copyVolume, internalMount;
--                                     Controller/Lifecycle joins the two
--   Controller/Requests               ValidateVolumeCapabilities, ControllerExpandVolume and the
--                                     requests with constant answers
--   Identity                          pkg/smb/identityserver.go
--   CsiCommon                         pkg/csi-common/driver.go, ParseEndpoint; CsiCommon/Logging has
--                                     logGRPC
--   Windows                           ValidatePathWindows of pkg/os/filesystem/filesystem.go
--   FilePath/OnWindows                path/filepath on Windows, at paths that are not UNC paths
--   Refcount                          pkg/mounter/refcounter_windows.go
--   CsiProxy                          pkg/mounter/safe_mounter_windows.go
--   NodeOnProxy                       the node service over the mounter of CsiProxy
--   CsiProxyBeta                      pkg/mounter/safe_mounter_v1beta_windows.go
--   HostProcess                       pkg/mounter/safe_mounter_host_process_windows.go, with
--                                     HostProcess/Files for the rest of pkg/os/filesystem and
--                                     HostProcess/Mappings for pkg/os/smb/smb.go
--   PowerShell                        pkg/util/util.go: the semaphore of RunPowershellCmd as a step
--                                     relation, WaitUntilTimeout
--   Startup                           cmd/smbplugin/main.go, DriverOptions, NewDriver; its children
--                                     have getKubeConfig, Run, NewSafeMounter, the metrics endpoint
--                                     and the address of pkg/csi-common/server.go
--   Driver                            a process: requests and ends of mounts, one after the other
--   Interleaved                       handlers that overlap, one action on the locks at a time
--   Invariant                         what it takes to be an invariant of the handlers; each file
--                                     named Kept shows it for the functions of its parent
--   Examples                          runs on concrete inputs
--
-- How the model stands to the code.
--   A text is a list of bytes; letter case and white space are those of ASCII. A map is a list of its
--   entries, and `visit` is the order in which `range` goes through it, an argument. A handler is a
--   function from the state to an answer and a state. Each call of the operating system, of
--   k8s.io/mount-utils, csi-proxy, client-go, azcache and of the clock is written to the trace; what it
--   answers is given by an `Env`, a function of the calls before it, of which nothing is supposed. So
--   two calls may answer differently.
--   `Config.windows` chooses between the files that are built for Linux and for Windows.
--   A mount that ends in time makes its calls in place. One that does not is kept in `in_flight`, and
--   makes its calls in `finish_mount`, with the release of its lock, at any later time.
--   The references of volumes to SMB mappings are a list of files, and how each call on the file
--   system comes out is an argument; MD5 is an argument of which nothing is supposed.
--   The loops are recursions on lists, so there is no fuel.
--   In Driver requests are served one after the other, but for the mounts that outlive theirs. In
--   Interleaved the actions of several handlers on the locks and their calls come in any order; that
--   each handler is a sequence of such actions is shown, and what its calls answer is left open.
--   The node service calls a mounter of Windows through k8s.io/mount-utils, so for Node its answers are
--   those of `Env`. `over_proxy` of NodeOnProxy is the `Env` whose answers the mounter of CsiProxy gives,
--   in the state that the calls before have left it in. The other two mounters stand for themselves.
--   A slice that is shared with the request is copied, so raising the modes in place is seen in the
--   result only. Log output but that of logGRPC is left out, and of an error its code and its reason are kept, not its text.
--
-- Not modelled: the gRPC library's part of pkg/csi-common/server.go, the build information of pkg/smb/version.go, the methods of the mounters that only
-- return that they are not implemented, and the stubs for macOS: they keep no state of the driver.
mod Base
pub mod Text
pub mod Result
pub mod Exec
pub mod Names
pub mod FilePath
pub mod Dict
pub mod Volume
pub mod Strconv
pub mod Options
pub mod Kerberos
pub mod World
pub mod Locks
pub mod Config
pub mod Node
pub mod NodeOnProxy
pub mod Controller
pub mod Invariant
pub mod CsiCommon
pub mod Identity
pub mod Windows
pub mod Refcount
pub mod CsiProxy
pub mod CsiProxyBeta
pub mod HostProcess
pub mod Startup
pub mod Driver
pub mod Interleaved
pub mod PowerShell
mod Examples
