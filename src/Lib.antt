-- ===== src/Lib.antt =====
-- csi-qsd: volumes and snapshots for Kubernetes, kept by the QEMU storage daemon (QSD).
--
-- The program has four parts. The QSD server (pkg/qsd/server.go, started by cmd/qsd) keeps a table
-- of images and, for each volume, the name of its active layer. It answers gRPC calls that create,
-- clone, snapshot, export and delete volumes, by commands to the storage daemon that the volume
-- manager (pkg/qsd/commands.go) sends as JSON over a monitor socket. The driver (pkg/driver) is the
-- plugin of the container storage interface: it keeps its own tables of volumes and snapshots and
-- calls the QSD server of the node. The metadata server (pkg/metadata) keeps the images' data in
-- the annotations of persistent volumes. The client (cmd/qsd-client) calls the QSD server from a
-- command line.
--
-- Files:
--   * Base, Go/Text, Go/Plain, Go/Table, Go/Number, Go/Exec: names of the library, strings as lists of bytes,
--     maps as association lists, 32-bit counters and their print, and Go's ways to end a call:
--     a value, an error, a panic, and no return.
--   * Host: what the server finds outside itself (the os package, exec.Command, the QMP socket of
--     digitalocean/go-qemu, timers) as a record of functions on a world that may be anything. No
--     law is asked of it there.
--   * Qsd/Message: the messages of pkg/qsd/qsd.proto.
--   * Qsd/Commands/Json, Qsd/Commands/Manager: pkg/qsd/commands.go, the text of each command and
--     the methods of VolumeManager and QMPMonitor. Qsd/Commands/Nodes: GetNameBlockNodes.
--     Qsd/Commands/Wait: waitJobToComplete. Qsd/Commands/Size, Qsd/Commands/Units:
--     parseSizeToByteString.
--   * Qsd/Server/State: QCOWImage, Server, NewServer, failed and generateQSDID of
--     pkg/qsd/server.go. A handler is a function on the server and the world, with the error and
--     the response of the Go function as its failure.
--   * Qsd/Server/Create: CreateVolume. Qsd/Server/Delete: deleteImage,
--     deleteNodeWithZeroReference, deleteIfEmptyDir, DeleteVolume. Qsd/Server/Snapshots:
--     CreateSnapshot, DeleteSnapshot. Qsd/Server/Export: ExposeVhostUser, DeleteExporter,
--     ListVolumes.
--   * Qsd/Graph: the abstract view of the table of images, a forest in which each image stands on
--     its backing image, and the changes that keep it one. It knows nothing of the handlers.
--   * Qsd/Server/Effect, Qsd/Server/Layers, Qsd/Server/Names: what the handlers and generateQSDID
--     do. Qsd/Server/Undo, Qsd/Server/Released, Qsd/Server/RoundTrip: CreateVolume and then
--     DeleteVolume.
--   * Qsd/Requests: the requests of the service as one type, their dispatch, and runs of the
--     server as a relation.
--   * Qsd/Daemon: the manual of the storage daemon for the commands that the server sends, as laws
--     of a host: which nodes there are, and which commands make and delete one. The modules below
--     it set the table of images beside the nodes.
--   * Driver/Csi: the messages of the container storage interface and the client of the QSD
--     service, as a record of functions. Driver/State: Driver, its tables and small methods.
--     Driver/Volumes, Driver/Snapshots: pkg/driver/controller.go. Driver/Node, Driver/Publish,
--     Driver/Identity, Driver/Run: node.go, identity.go, and Run and Stop of driver.go.
--     Driver/Mounted: the node service over mounts that stack up, as mount(2) has it.
--   * Driver/OverServer: the driver with the model of the server as its remote side.
--     Driver/Created, Driver/Lifecycle: CreateVolume and DeleteVolume of the two together.
--     Driver/Calls, Driver/Sent, Driver/Kept, Driver/Refined: calls of the driver in a row, and
--     the requests that each makes of the server. Driver/Mirrored, Driver/Twice: the same with a
--     storage daemon as documented behind the server. Driver/Known: the tables of the driver
--     against the images of the server.
--   * Metadata/ParseInt, Metadata/Server: strconv.ParseInt as documented, and
--     pkg/metadata/metadata.go. Metadata/Client: newK8sClient and its callers there.
--     Metadata/Store, Metadata/Listing, Metadata/Written: the metadata server on a cluster that
--     keeps what it is given.
--   * Client/Commands, Client/Tree: the commands create, delete, snapshot and list, and printTree
--     of cmd/qsd-client/cmd. Client/Root: its commands with their flags, and Execute.
--     Client/Drawn, Client/Nested, Client/Forest, Client/Standing: the tree of what ListVolumes
--     returns.
--   * Process/Qsd: main of cmd/qsd/main.go as a step function over its goroutines, its timer, the
--     signals and the requests, with the model of the server behind it. Process/Stages,
--     Process/Service: its runs. Process/Plugins: main of cmd/driver and of cmd/metadata.
--   * Tests: runs of the model on concrete hosts.
--
-- Bounds. RefCount is an int32 and Depth a uint32; their operations wrap. A request is
-- admissible where a new image has a name that is not empty and not in use, and the table has room
-- below 2 ^ 31 images, so that no counter wraps. With a storage daemon as documented the name may
-- be in use, but has to need no escape in JSON: the code puts names into its commands as they are.
-- The recursion of deleteNodeWithZeroReference runs on fuel, one more than the number of images:
-- each call past the first has deleted an image before. The wait for a job runs on fuel that the
-- caller gives; running out of it is the outcome that does not return.
--
-- Simplifications. Requests are served one after the other: the Go handlers run in goroutines and
-- take no lock. A map is iterated in the order of its list, where Go leaves the order open. A
-- message that goes through Errorf as its format is kept as it is, so names hold no percent sign.
-- Log lines are left out.
--
-- Not modelled: the parsing of flags and of command lines; how long the timers of cmd/qsd/main.go
-- run, which may fire at any time; the generated files qsd.pb.go, qsd_grpc.pb.go, metadata.pb.go
-- and metadata_grpc.pb.go but for their messages; and vendor/.
pub mod Base
pub mod Go
pub mod Host
pub mod Qsd
pub mod Driver
pub mod Metadata
pub mod Client
pub mod Process
mod Tests
