-- ===== src/Qsd/Commands/Json.antt =====
-- The QMP commands, as the format strings of pkg/qsd/commands.go spell them.
use csi_qsd.Base.{◌++◌}
use csi_qsd.Go.Text.{Text, text}

-- cmdCreateNbsServer of CreateNbdServer
unfoldable pub nbd_server_start : Text → Text
nbd_server_start path =
    text
      "{ 'execute': 'nbd-server-start','arguments': { 'addr': { 'type': 'unix','data': { 'path': '"
    ++ (path ++ text "/nbd.sock' }}}}")

-- cmdExportNbd of CreateNbdServer
unfoldable pub nbd_server_add : Text → Text
nbd_server_add exporter =
    text "{\"execute\":\"nbd-server-add\", \"arguments\":{\"device\":\"imgfile\", \"name\":\""
    ++ (exporter
        ++ (text "\", \"writable\":true, \"description\":\"" ++ (exporter ++ text " exporter\"}}")))

-- completeJob
unfoldable pub job_complete : Text → Text
job_complete id =
    text "{\n"
    ++ (text "  \"execute\": \"job-complete\",\n"
        ++ (text "  \"arguments\": {\n"
            ++ (text "    \"id\": \"" ++ (id ++ (text "\"\n" ++ (text "  }\n" ++ text "}"))))))

-- dismissJob
unfoldable pub job_dismiss : Text → Text
job_dismiss id =
    text "{\n"
    ++ (text "  \"execute\": \"job-dismiss\",\n"
        ++ (text "  \"arguments\": {\n"
            ++ (text "    \"id\": \"" ++ (id ++ (text "\"\n" ++ (text "  }\n" ++ text "}"))))))

-- createImage
unfoldable pub blockdev_add_file : Text → Text → Text
blockdev_add_file image id =
    text "{\n"
    ++ (text "  \"execute\": \"blockdev-add\",\n"
        ++ (text "  \"arguments\": {\n"
            ++ (text "    \"driver\": \"file\",\n"
                ++ (text "    \"filename\": \""
                    ++ (image
                        ++ (text "\",\n"
                            ++ (text "    \"node-name\": \"node-"
                                ++ (id ++ (text "\"\n" ++ (text "  }\n" ++ text "}"))))))))))

-- DeleteVolume
unfoldable pub blockdev_del : Text → Text
blockdev_del id =
    text "{\n"
    ++ (text "  \"execute\": \"blockdev-del\",\n"
        ++ (text "  \"arguments\": {\n"
            ++ (text "    \"node-name\": \"node-" ++ (id ++ text "\"}}"))))

-- ExposeVhostUser
unfoldable pub block_export_add : Text → Text → Text
block_export_add id vhost_sock =
    text "{\n"
    ++ (text "  \"execute\": \"block-export-add\",\n"
        ++ (text "  \"arguments\": {\n"
            ++ (text "    \"id\": \"vhost-"
                ++ (id
                    ++ (text "\",\n"
                        ++ (text "    \"node-name\": \"node-"
                            ++ (id
                                ++ (text "\",\n"
                                    ++ (text "    \"type\": \"vhost-user-blk\",\n"
                                        ++ (text "    \"writable\": true,\n"
                                            ++ (text "    \"addr\": {\n"
                                                ++ (text "      \"path\": \""
                                                    ++ (vhost_sock
                                                        ++ (text "\",\n"
                                                            ++ (text "      \"type\": \"unix\"\n"
                                                            ++ (text "    }\n"
                                                            ++ (text "  }\n"
                                                            ++ text "}")))))))))))))))))

-- DeleteExporter
unfoldable pub block_export_del : Text → Text
block_export_del id =
    text "{\n"
    ++ (text "  \"execute\": \"block-export-del\",\n"
        ++ (text "  \"arguments\": {\n"
            ++ (text "    \"id\": \"vhost-"
                ++ (id ++ (text "\"\n" ++ (text "  }\n" ++ text "}"))))))

-- CreateSnapshotWithBackingNode
unfoldable pub blockdev_add_backed : Text → Text → Text → Text
blockdev_add_backed snapshot backing snapshot_id =
    text "{\n"
    ++ (text "  \"execute\": \"blockdev-add\",\"arguments\": {\n"
        ++ (text "    \"driver\": \"qcow2\",\n"
            ++ (text "    \"file\": {\"driver\": \"file\",\"filename\": \""
                ++ (snapshot
                    ++ (text "\"},\n"
                        ++ (text "    \"backing\": \"node-"
                            ++ (backing
                                ++ (text "\",\n"
                                    ++ (text "    \"node-name\": \"node-"
                                        ++ (snapshot_id ++ text "\"}}"))))))))))

-- cmdBlockAdd of CreateSnapshot
unfoldable pub blockdev_add_overlay : Text → Text → Text
blockdev_add_overlay snapshot snapshot_id =
    text "{\n"
    ++ (text "  \"execute\": \"blockdev-add\",\"arguments\": {\n"
        ++ (text "    \"driver\": \"qcow2\",\n"
            ++ (text "    \"file\": {\"driver\": \"file\",\"filename\": \""
                ++ (snapshot
                    ++ (text "\"},\n"
                        ++ (text "    \"backing\": null,\n"
                            ++ (text "    \"node-name\": \"node-"
                                ++ (snapshot_id ++ text "\"}}"))))))))

-- cmdBlockSnap of CreateSnapshot
unfoldable pub blockdev_snapshot : Text → Text → Text
blockdev_snapshot image_id snapshot_id =
    text "{\n"
    ++ (text "  \"execute\": \"blockdev-snapshot\",\n"
        ++ (text "  \"arguments\": {\n"
            ++ (text "    \"node\": \"node-"
                ++ (image_id
                    ++ (text "\",\n"
                        ++ (text "    \"overlay\": \"node-" ++ (snapshot_id ++ text "\"}}")))))))

-- StreamImage
unfoldable pub block_stream : Text → Text → Text → Text
block_stream overlay job_id base =
    text "{\n"
    ++ (text "    \"execute\": \"block-stream\",\n"
        ++ (text "    \"arguments\": {\n"
            ++ (text "        \"device\": \"node-"
                ++ (overlay
                    ++ (text "\",\n"
                        ++ (text "        \"job-id\": \""
                            ++ (job_id
                                ++ (text "\",\n"
                                    ++ (text "\t\"base-node\": \"node-"
                                        ++ (base ++ text "\"}}"))))))))))

-- CommitImage
unfoldable pub block_commit : Text → Text → Text → Text → Text
block_commit node job_id top base =
    text "{\n"
    ++ (text "    \"execute\": \"block-commit\",\n"
        ++ (text "    \"arguments\": {\n"
            ++ (text "        \"device\": \"node-"
                ++ (node
                    ++ (text "\",\n"
                        ++ (text "        \"job-id\": \""
                            ++ (job_id
                                ++ (text "\",\n"
                                    ++ (text "\t\"top\": \""
                                        ++ (top
                                            ++ (text "\",\n"
                                                ++ (text "        \"base\": \""
                                                    ++ (base ++ text "\"}}")))))))))))))

-- GetNameBlockNodes
unfoldable pub query_named_block_nodes : Text
query_named_block_nodes = text "{ \"execute\": \"query-named-block-nodes\" }"
