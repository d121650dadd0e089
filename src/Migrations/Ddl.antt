-- ===== src/Migrations/Ddl.antt =====
-- pub_crawler/database.py: the statements of the migrations.
use pub_crawler.Base.{String, ◌++◌, List, [], ◌∷◌}

abbrev pub create_node_table : String
create_node_table =
    "\n  CREATE TABLE node (\n" ++ "    id INT GENERATED ALWAYS AS IDENTITY PRIMARY KEY,\n"
    ++ "    label VARCHAR(256) UNIQUE NOT NULL,\n"
    ++ "    created_at TIMESTAMPTZ DEFAULT CURRENT_TIMESTAMP\n" ++ "  );\n  "

abbrev pub create_edge_table : String
create_edge_table =
    "\n  CREATE TABLE edge (\n" ++ "    from_node INT NOT NULL,\n" ++ "    to_node INT NOT NULL,\n"
    ++ "    created_at TIMESTAMPTZ DEFAULT CURRENT_TIMESTAMP,\n"
    ++ "    PRIMARY KEY (from_node, to_node),\n"
    ++ "    FOREIGN KEY (from_node) REFERENCES node (id) ON DELETE CASCADE,\n"
    ++ "    FOREIGN KEY (to_node) REFERENCES node (id) ON DELETE CASCADE\n" ++ "  );\n  "

abbrev pub create_node_property_table : String
create_node_property_table =
    "\n  CREATE TABLE node_property (\n" ++ "    id INT NOT NULL,\n"
    ++ "    name VARCHAR(32) NOT NULL,\n" ++ "    value JSONB NOT NULL,\n"
    ++ "    created_at TIMESTAMPTZ DEFAULT CURRENT_TIMESTAMP,\n"
    ++ "    updated_at TIMESTAMPTZ DEFAULT CURRENT_TIMESTAMP,\n" ++ "    PRIMARY KEY (id, name),\n"
    ++ "    FOREIGN KEY (id) REFERENCES node (id) ON DELETE CASCADE\n" ++ "  );\n  "

abbrev pub create_edge_property_table : String
create_edge_property_table =
    "\n  CREATE TABLE edge_property (\n" ++ "    from_node INT NOT NULL,\n"
    ++ "    to_node INT NOT NULL,\n" ++ "    name VARCHAR(32) NOT NULL,\n"
    ++ "    value JSONB NOT NULL,\n" ++ "    created_at TIMESTAMPTZ DEFAULT CURRENT_TIMESTAMP,\n"
    ++ "    updated_at TIMESTAMPTZ DEFAULT CURRENT_TIMESTAMP,\n"
    ++ "    PRIMARY KEY (from_node, to_node, name),\n"
    ++ "    FOREIGN KEY (from_node, to_node) REFERENCES edge (from_node, to_node) ON DELETE CASCADE\n"
    ++ "  );\n  "

abbrev pub create_edge_to_node_idx : String
create_edge_to_node_idx = "\n  CREATE INDEX edge_to_node_idx ON edge (to_node);\n  "

abbrev pub create_host_table : String
create_host_table =
    "\n  CREATE TABLE host (\n" ++ "    id INT GENERATED ALWAYS AS IDENTITY PRIMARY KEY,\n"
    ++ "    hostname VARCHAR(256) UNIQUE NOT NULL,\n"
    ++ "    created_at TIMESTAMPTZ DEFAULT CURRENT_TIMESTAMP\n" ++ "  );\n  "

abbrev pub create_host_property_table : String
create_host_property_table =
    "\n  CREATE TABLE host_property (\n" ++ "    id INT NOT NULL,\n"
    ++ "    name VARCHAR(32) NOT NULL,\n" ++ "    value JSONB NOT NULL,\n"
    ++ "    created_at TIMESTAMPTZ DEFAULT CURRENT_TIMESTAMP,\n"
    ++ "    updated_at TIMESTAMPTZ DEFAULT CURRENT_TIMESTAMP,\n" ++ "    PRIMARY KEY (id, name),\n"
    ++ "    FOREIGN KEY (id) REFERENCES host (id) ON DELETE CASCADE\n" ++ "  );\n  "

abbrev pub create_host_prop_name_value_idx : String
create_host_prop_name_value_idx =
    "\n  CREATE INDEX host_property_name_value_idx ON host_property (name, value);\n  "

-- in the order in which they run
abbrev pub migrations : List (String × String)
migrations =
    ("create_node_table", create_node_table)
    ∷ ("create_edge_table", create_edge_table)
    ∷ ("create_node_property_table", create_node_property_table)
    ∷ ("create_edge_property_table", create_edge_property_table)
    ∷ ("create_edge_to_node_idx", create_edge_to_node_idx)
    ∷ ("create_host_table", create_host_table)
    ∷ ("create_host_property_table", create_host_property_table)
    ∷ ("create_host_prop_name_value_idx", create_host_prop_name_value_idx)
    ∷ []
